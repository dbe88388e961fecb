-- ===== src/Mac/Tests.antt =====
-- Tests of message authentication codes, and the theorem at a concrete input.
use ossl_go.Prelude.{◌≡◌, refl, false, [], ◌∷◌, Option, none, some}
use ossl_go.Prelude.Int.{pos, negsuc}
use ossl_go.Errors.{ok, err, refused, mac_size_negative, gmac_needs_iv}
use ossl_go.Cgo.{
  pure, fail, abort, ◌>>=◌, attempt, call, call_one, deferred, release, acquire, acquire_or, using,
  with_cstring, clear_errors, new_error,
}
use ossl_go.Cgo.Balance.{Balanced}
use ossl_go.Params.{new_params, utf8, cstr, alloc, free}
use ossl_go.Context.{default}
use ossl_go.Fips.{on_error}
use ossl_go.Samples.{fresh}
use ossl_go.Mac.{MacParams, init_mac, close_mac, make_mac, new_mac, new_gmac, new_hmac}
use ossl_go.Mac.Stream.{write_mac, tag_of, sum_mac, hmac_sum, equal_mac}
use ossl_go.Mac.Owned.{new_mac-close-Balanced}

abbrev cmac : Option MacParams
cmac = some (record { digest = ""; cipher = "AES-256-CBC"; iv = none; custom = []; size = pos 0 })

macs : (hmac_sum "SHA2-256" (3 ∷ []) (5 ∷ 6 ∷ []) fresh).0 ≡ ok (7 ∷ 9 ∷ [])
unfolding hmac_sum new_hmac make_mac init_mac close_mac write_mac tag_of sum_mac on_error pure fail
    abort ◌>>=◌ attempt call call_one deferred release acquire acquire_or using with_cstring
    clear_errors new_error new_params utf8 cstr alloc free ossl_go.Params.c
macs = refl

negative :
    (new_mac
      (some default)
      "KMAC-128"
      []
      (some (record { digest = ""; cipher = ""; iv = none; custom = []; size = negsuc 0 }))
      fresh).0
    ≡ err (refused mac_size_negative)
unfolding new_mac pure fail ◌>>=◌
negative = refl

no_iv : (new_gmac (some default) "AES-256-GCM" (1 ∷ []) [] fresh).0 ≡ err (refused gmac_needs_iv)
unfolding new_gmac fail ◌>>=◌
no_iv = refl

shorter : equal_mac (1 ∷ 2 ∷ []) (1 ∷ []) ≡ false
unfolding equal_mac
shorter = refl

new_mac-close-Balanced_example :
    Balanced (new_mac (some default) "CMAC" (1 ∷ 2 ∷ []) cmac >>= close_mac)
new_mac-close-Balanced_example = new_mac-close-Balanced (some default) "CMAC" (1 ∷ 2 ∷ []) cmac

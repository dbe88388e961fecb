-- ===== src/Aead/Tests.antt =====
-- Tests of authenticated encryption, and the theorems at concrete inputs.
use ossl_go.Prelude.{ℕ, ◌≡◌, ◌↔◌, refl, Bytes, [], ◌∷◌, some, false, true}
use ossl_go.Prelude.Int.{pos}
use ossl_go.Errors.{ok, err, refused, verification, tag_range}
use ossl_go.Cgo.{
  pure, fail, abort, lift, ◌>>=◌, call, call_one, acquire_or, acquire, using, deferred, release,
  clear_errors, new_error,
}
use ossl_go.Cgo.Balance.{Balanced}
use ossl_go.Cgo.Ordered.{AskedInOrder}
use ossl_go.Params.{new_params, size_t, octets, octets_out, alloc, cstr, cbytes, with_params, free}
use ossl_go.Samples.{fresh}
use ossl_go.Aead.{
  Aead, AeadConfig, validate_aead_sizes, init_aead, seal_err, open_body, open_final, open_aead,
  sealed_tag,
}
use ossl_go.Aead.Balance.{seal_err-open_aead-Balanced}
use ossl_go.Aead.Opened.{authentication, open_aead_authenticated}
use ossl_go.Aead.Sizes.{ValidSizes, validate_aead_sizes_exact}

abbrev gcm : Aead
gcm = record {
  cipher = 50;
  key = 1 ∷ [];
  name = "AES-128-GCM";
  nonce = pos 2;
  tag = pos 12;
  ccm = false;
  is_closed = false;
}

abbrev odd_tag : AeadConfig
odd_tag = record { iv_len = pos 12; tag_len = pos 13 }

odd-ccm : validate_aead_sizes true odd_tag ≡ err (refused tag_range)
unfolding validate_aead_sizes
odd-ccm = refl

odd-gcm : validate_aead_sizes false odd_tag ≡ ok tt
unfolding validate_aead_sizes
odd-gcm = refl

abbrev sealed : Bytes
sealed = 9 ∷ 1 ∷ 2 ∷ 3 ∷ 4 ∷ 5 ∷ 6 ∷ 7 ∷ 8 ∷ 9 ∷ 10 ∷ 11 ∷ 12 ∷ []

opens : (open_aead (some gcm) [] (3 ∷ 4 ∷ []) sealed [] fresh).0 ≡ ok (7 ∷ 9 ∷ 7 ∷ 9 ∷ [])
unfolding open_aead init_aead open_body open_final pure fail abort lift ◌>>=◌ call call_one
    acquire_or acquire using deferred release clear_errors new_error new_params size_t octets alloc
    cstr cbytes with_params free ossl_go.Params.c
opens = refl

short : (open_aead (some gcm) [] (3 ∷ 4 ∷ []) (1 ∷ []) [] fresh).0 ≡ err verification
unfolding open_aead pure fail ◌>>=◌
short = refl

open_aead_authenticated_example :
    (ctx : ℕ) × AskedInOrder fresh.lib
      (authentication gcm (sealed_tag gcm sealed) ctx)
      []
      (open_aead (some gcm) [] (3 ∷ 4 ∷ []) sealed [] fresh).1.trace
open_aead_authenticated_example =
    open_aead_authenticated gcm [] (3 ∷ 4 ∷ []) sealed [] (7 ∷ 9 ∷ 7 ∷ 9 ∷ []) fresh opens

validate_aead_sizes_exact_example :
    validate_aead_sizes false odd_tag ≡ ok tt ↔ ValidSizes false odd_tag
validate_aead_sizes_exact_example = validate_aead_sizes_exact false odd_tag

seal_err-open_aead-Balanced_example :
    Balanced (seal_err (some gcm) [] (3 ∷ 4 ∷ []) sealed [])
    × Balanced (open_aead (some gcm) [] (3 ∷ 4 ∷ []) sealed [])
seal_err-open_aead-Balanced_example =
    seal_err-open_aead-Balanced (some gcm) [] (3 ∷ 4 ∷ []) sealed []

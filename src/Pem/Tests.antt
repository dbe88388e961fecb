-- ===== src/Pem/Tests.antt =====
-- Tests of the encodings of keys, and the theorems at a concrete input.
use ossl_go.Prelude.{◌≡◌, refl, [], ◌∷◌, some}
use ossl_go.Errors.{ok, err, refused, not_ec_key, empty_key_input}
use ossl_go.Cgo.{
  pure, fail, abort, ◌>>=◌, call, call_one, acquire, acquire_or, using, release, deferred,
  with_cstring, with_block, clear_errors, new_error,
}
use ossl_go.Cgo.Balance.{Balanced}
use ossl_go.Cgo.Only.{OnlyCalls}
use ossl_go.Context.{default}
use ossl_go.Key.{close_key, key_context}
use ossl_go.Samples.{fresh, key_of, no_key}
use ossl_go.Pem.{
  public_key, struct_spki, encode, decode_key, parse_raw, marshal_raw, marshal_raw_public_key,
  marshal_sec1, marshal_pkcs8, marshal_spki, marshal_spki_pem, public,
}
use ossl_go.Pem.Owned.{decode_key-close-Balanced}
use ossl_go.Pem.Exports.{spares_private, public-spares_private}

exports : (marshal_pkcs8 (key_of "EC") fresh).0 ≡ ok (7 ∷ 9 ∷ [])
unfolding encode pure ◌>>=◌ call call_one acquire acquire_or using release deferred with_cstring
    with_block clear_errors new_error abort
exports = refl

not_sec1 : (marshal_sec1 (key_of "RSA") fresh).0 ≡ err (refused not_ec_key)
unfolding fail ◌>>=◌
not_sec1 = refl

raw_bytes : (marshal_raw_public_key (key_of "X25519") fresh).0 ≡ ok (7 ∷ 9 ∷ [])
unfolding marshal_raw pure ◌>>=◌ call call_one clear_errors new_error abort
raw_bytes = refl

-- the two names, the encoder and its data, and then the names of the decoder come first
public_half :
    (public (key_of "EC") fresh).0
    ≡ ok (record { pkey = some (record { addr = 9; info = no_key }); ctx = some default })
unfolding public encode decode_key key_context pure ◌>>=◌ call call_one acquire acquire_or using
    release deferred with_cstring with_block clear_errors new_error abort fail
public_half = refl

no_input :
    (decode_key (some default) [] "DER" struct_spki "" public_key fresh).0
    ≡ err (refused empty_key_input)
unfolding decode_key fail
no_input = refl

decode_key-close-Balanced_example :
    (Balanced (decode_key (some default) (1 ∷ []) "DER" struct_spki "" public_key >>= close_key)
      × Balanced (parse_raw struct_spki (some default) "" (1 ∷ []) >>= close_key))
    × (Balanced (public (key_of "EC") >>= close_key)
        × Balanced (encode (key_of "EC") public_key "DER" struct_spki))
decode_key-close-Balanced_example =
    decode_key-close-Balanced (some default) (1 ∷ []) "DER" struct_spki "" public_key (key_of "EC")

public-spares_private_example :
    (OnlyCalls spares_private (public (key_of "EC"))
      × OnlyCalls spares_private (marshal_raw_public_key (key_of "EC")))
    × (OnlyCalls spares_private (marshal_spki (key_of "EC"))
        × OnlyCalls spares_private (marshal_spki_pem (key_of "EC")))
public-spares_private_example = public-spares_private (key_of "EC")

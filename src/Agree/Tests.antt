-- ===== src/Agree/Tests.antt =====
-- Tests of key agreement, and the theorem at a concrete input.
use ossl_go.Prelude.{◌≡◌, refl, Bool, [], ◌∷◌, none, some}
use ossl_go.Errors.{ok, err, refused, type_mismatch}
use ossl_go.Cgo.{
  pure, fail, ◌>>=◌, call, call_pos, acquire, acquire_or, using, release, deferred, clear_errors,
  new_error, abort,
}
use ossl_go.Cgo.Confirms.{Asked-weaken}
use ossl_go.Key.{Pkey, pkey_of, key_context, key_type}
use ossl_go.Samples.{fresh, key_of}
use ossl_go.Asym.{key_operation, sized}
use ossl_go.Agree.{set_cofactor, agree, derive_secret}
use ossl_go.Agree.Guarded.{derive_guarded, derive_validated}

agrees : (derive_secret (key_of "EC") (key_of "EC") (some Bool.true) fresh).0 ≡ ok (7 ∷ 9 ∷ [])
unfolding derive_secret agree set_cofactor key_operation sized pure fail ◌>>=◌ call call_pos acquire
    acquire_or using release deferred clear_errors new_error abort key_context
agrees = refl

mixed : (derive_secret (key_of "EC") (key_of "X25519") none fresh).0 ≡ err (refused type_mismatch)
unfolding derive_secret ◌>>=◌ fail
mixed = refl

derive_guarded_example :
    (p q : Pkey) × (pkey_of (key_of "EC") ≡ some p)
    × (pkey_of (key_of "EC") ≡ some q)
    × (key_type (key_of "EC") ≡ key_type (key_of "EC"))
derive_guarded_example =
    derive_guarded (key_of "EC") (key_of "EC") (some Bool.true) fresh "EVP_PKEY_derive_set_peer" (
      Asked-weaken (λ args r h. tt)
        (derive_validated (key_of "EC") (key_of "EC") (some Bool.true) fresh (7 ∷ 9 ∷ []) agrees).2)

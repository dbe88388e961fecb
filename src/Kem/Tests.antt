-- ===== src/Kem/Tests.antt =====
-- Tests of key encapsulation.
use ossl_go.Prelude.{◌≡◌, refl, [], ◌∷◌}
use ossl_go.Errors.{ok, err, refused, empty_encapsulation}
use ossl_go.Cgo.{
  pure, fail, ◌>>=◌, call, call_pos, acquire, acquire_or, using, release, deferred, clear_errors,
  with_cstring, new_error, abort,
}
use ossl_go.Names.{equal_fold}
use ossl_go.Key.{key_context}
use ossl_go.Samples.{fresh, key_of}
use ossl_go.Asym.{key_operation, sized}
use ossl_go.Kem.{set_kem_op, encapsulate, decapsulate}

encapsulates : (encapsulate (key_of "rsa") fresh).0 ≡ ok (7 ∷ 9 ∷ [], 5 ∷ [])
unfolding encapsulate set_kem_op key_operation pure ◌>>=◌ call call_pos acquire acquire_or using
    release deferred clear_errors with_cstring new_error abort key_context equal_fold
encapsulates = refl

decapsulates : (decapsulate (key_of "ML-KEM-768") (1 ∷ []) fresh).0 ≡ ok (7 ∷ 9 ∷ [])
unfolding decapsulate set_kem_op key_operation sized pure ◌>>=◌ call call_pos acquire acquire_or
    using release deferred clear_errors with_cstring new_error abort key_context equal_fold
decapsulates = refl

empty : (decapsulate (key_of "ML-KEM-768") [] fresh).0 ≡ err (refused empty_encapsulation)
unfolding decapsulate fail
empty = refl

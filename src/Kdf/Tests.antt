-- ===== src/Kdf/Tests.antt =====
-- Tests of key derivation, and the theorems at concrete inputs.
use ossl_go.Prelude.{◌≡◌, ◌≤◌, ℕ, refl, Bytes, [], ◌∷◌, some}
use ossl_go.Prelude.Int.{pos}
use ossl_go.Errors.{ok, err, refused, iterations_too_many}
use ossl_go.Cgo.{
  pure, fail, abort, ◌>>=◌, call, call_one, acquire_or, using, with_cstring, deferred, acquire,
  clear_errors, release,
}
use ossl_go.Cgo.Trace.{Asked}
use ossl_go.Cgo.Balance.{Balanced}
use ossl_go.Params.{new_params, utf8, octets, uint, cstr, cbytes, alloc, with_params, free}
use ossl_go.Context.{default}
use ossl_go.Samples.{fresh}
use ossl_go.Kdf.{pbkdf2, derive, derive_kdf, max_pbkdf2_iterations, string_param, other_param}
use ossl_go.Kdf.Bounds.{InRange, DerivedWith, pbkdf2_entries, pbkdf2_exact}
use ossl_go.Kdf.Balance.{derive-Balanced}

abbrev password : Bytes
password = 1 ∷ 2 ∷ []

too_many :
    (pbkdf2 (some default) "SHA2-256" password [] (pos 10000001) (pos 2) fresh).0
    ≡ err (refused iterations_too_many)
unfolding pbkdf2 ◌>>=◌ pure fail
too_many = refl

derives : (pbkdf2 (some default) "SHA2-256" password [] (pos 3) (pos 2) fresh).0 ≡ ok (7 ∷ 9 ∷ [])
unfolding pbkdf2 derive_kdf ◌>>=◌ pure fail abort call call_one acquire_or using with_cstring
    deferred acquire clear_errors release new_params utf8 octets uint cstr cbytes alloc with_params
    free ossl_go.Params.c
derives = refl

pbkdf2_exact_example :
    (m : ℕ) × (pos 3 ≡ pos m)
    × (1 ≤ m)
    × (m ≤ max_pbkdf2_iterations)
    × InRange (pos 2) (7 ∷ 9 ∷ [])
    × Asked fresh.lib "EVP_KDF_derive"
        (DerivedWith (pbkdf2_entries "SHA2-256" password [] m))
        []
        (pbkdf2 (some default) "SHA2-256" password [] (pos 3) (pos 2) fresh).1.trace
pbkdf2_exact_example =
    pbkdf2_exact (some default) "SHA2-256" password [] (pos 3) (pos 2) fresh (7 ∷ 9 ∷ []) derives

derive-Balanced_example : Balanced (
    derive
      (some default)
      "HKDF"
      (("digest", string_param "SHA2-256") ∷ ("mode", other_param) ∷ [])
      (pos 2))
derive-Balanced_example =
    derive-Balanced (some default) "HKDF"
      (("digest", string_param "SHA2-256") ∷ ("mode", other_param) ∷ []) (pos 2)

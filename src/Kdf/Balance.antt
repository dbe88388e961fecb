-- ===== src/Kdf/Balance.antt =====
-- Key derivation releases every C object and every arena that it acquires, on every path.
use ossl_go.Prelude.{
  Bytes, String, List, [], ◌∷◌, Option, none, some, ℕ, not, ◌==◌, length, true, false,
  if◌then◌else◌,
}
use ossl_go.Prelude.Int.{ℤ}
use ossl_go.Errors.{refused, param_type}
use ossl_go.Cgo.{fail}
use ossl_go.Cgo.Balance.{Balanced, Balanced-if, Balanced-fail, balance_rules}
use ossl_go.Params.{Builder, octets}
use ossl_go.Params.Arena.{
  Builds, Adds, builds_rules, octets-Adds, utf8-Adds, int-Adds, uint-Adds, Adds-if,
}
use ossl_go.Params.Freed.{
  Balanced-with_params, c-Balanced, AddsFlag, AddsFlag-stop, AddsFlag-bind, Balanced-flag_params,
}
use ossl_go.Context.{Context}
use ossl_go.Kdf.{
  Argon2Params, Argon2Variant, add_params, string_param, bytes_param, int_param, uint_param,
  other_param, ParamValue, derive_kdf, derive, hkdf, hkdf_expand, pbkdf2, argon2, argon2_params,
  raise_threads, when_nonempty,
}

pub derive_kdf-Balanced :
    (c : Option Context) (name : String) (p : Builder) (n : ℤ) → Balanced (derive_kdf c name p n)
unfolding derive_kdf
derive_kdf-Balanced none name p n = search balance_rules
derive_kdf-Balanced (some c) name p n = search (balance_rules, c-Balanced) depth 12

hkdf-Balanced :
    (c : Option Context) (digest : String) (secret salt info : Bytes) (n : ℤ)
    → Balanced (hkdf c digest secret salt info n)
unfolding hkdf
hkdf-Balanced c digest secret salt info n =
    Balanced-with_params _ _ (search builds_rules depth 12) λ p. derive_kdf-Balanced c _ p n

hkdf_expand-Balanced :
    (c : Option Context) (digest : String) (prk info : Bytes) (n : ℤ)
    → Balanced (hkdf_expand c digest prk info n)
unfolding hkdf_expand
hkdf_expand-Balanced c digest prk info n =
    Balanced-with_params _ _ (search builds_rules depth 12) λ p. derive_kdf-Balanced c _ p n

pbkdf2-Balanced :
    (c : Option Context) (digest : String) (password salt : Bytes) (iterations n : ℤ)
    → Balanced (pbkdf2 c digest password salt iterations n)
unfolding pbkdf2
pbkdf2-Balanced c digest password salt iterations n =
    search (balance_rules, Balanced-with_params, builds_rules, derive_kdf-Balanced) depth 14

raise_threads-Balanced : (c : Option Context) (lanes : ℕ) → Balanced (raise_threads c lanes)
unfolding raise_threads
raise_threads-Balanced c lanes = search balance_rules depth 10

when_nonempty-Adds : (k : String) (b : Bytes) → Adds (when_nonempty k b)
when_nonempty-Adds k b = Adds-if (not (length b == 0)) (octets k b) (octets-Adds k b)

argon2_params-Builds :
    (password salt : Bytes) (ap : Argon2Params) (n : ℤ) → Builds (argon2_params password salt ap n)
unfolding argon2_params
argon2_params-Builds password salt ap n = search (builds_rules, when_nonempty-Adds) depth 14

argon2-Balanced :
    (c : Option Context) (variant : Argon2Variant) (password salt : Bytes) (ap : Argon2Params)
    (n : ℤ)
    → Balanced (argon2 c variant password salt ap n)
unfolding argon2
argon2-Balanced none variant password salt ap n = search balance_rules
argon2-Balanced (some c) variant password salt ap n =
    search
      (
        balance_rules, raise_threads-Balanced, Balanced-with_params, argon2_params-Builds,
        derive_kdf-Balanced,
      )
      depth 14

add_params-AddsFlag : (kp : List (String × ParamValue)) → AddsFlag (add_params kp)
unfolding add_params
add_params-AddsFlag [] = AddsFlag-stop true
add_params-AddsFlag ((k, string_param t) ∷ kp) =
    AddsFlag-bind _ _ (utf8-Adds k t) (add_params-AddsFlag kp)
add_params-AddsFlag ((k, bytes_param t) ∷ kp) =
    AddsFlag-bind _ _ (octets-Adds k t) (add_params-AddsFlag kp)
add_params-AddsFlag ((k, int_param t) ∷ kp) =
    AddsFlag-bind _ _ (int-Adds k t) (add_params-AddsFlag kp)
add_params-AddsFlag ((k, uint_param t) ∷ kp) =
    AddsFlag-bind _ _ (uint-Adds k t) (add_params-AddsFlag kp)
add_params-AddsFlag ((k, other_param) ∷ kp) = AddsFlag-stop false

-- `DeriveKDF` releases just what it acquired, for any parameters (one of an unsupported type among
-- them, which ends the loop early) and any answers of libcrypto.
pub derive-Balanced :
    (c : Option Context) (name : String) (kp : List (String × ParamValue)) (n : ℤ)
    → Balanced (derive c name kp n)
unfolding derive
derive-Balanced c name kp n =
    Balanced-flag_params (add_params kp)
      (λ b p. if b then derive_kdf c name p n else fail (refused param_type))
      (add_params-AddsFlag kp)
      λ b p. Balanced-if b _ _ (derive_kdf-Balanced c name p n) (Balanced-fail _)

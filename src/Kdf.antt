-- ===== src/Kdf.antt =====
-- ossl/kdf.go: key derivation. `DeriveKDF`, `HKDF`, `HKDFExpand`, `PBKDF2` and `Argon2` all end in
-- `deriveKDF`. A Go map is the list of its entries in the order in which the loop meets them.
pub mod Balance
pub mod Bounds
pub mod Tests
use ossl_go.Prelude.{
  ℕ, ◌%◌, ◌^◌, Bytes, Bool, true, false, not, String, str_append, List, [], ◌∷◌, Option, none, some,
  ltb, leb, ◌==◌, if◌then◌else◌, length,
}
use ossl_go.Prelude.Int.{ℤ, pos, negsuc, ltb_ℤ, is_nonpos, eq_ℕ, to_nat}
use ossl_go.Errors.{
  Error, Result, ok, err, closed, refused, output_not_positive, output_too_long,
  iterations_not_positive, iterations_too_many, argon_iterations, argon_memory, argon_lanes,
  argon_variant, param_type,
}
use ossl_go.Cgo.{
  Go, Arg, num, str, ptr, null, params, Reply, pure, fail, lift, ◌>>=◌, ◌>>◌, call, call_one,
  clear_errors, refuse_if, using, with_cstring, written, attempt, deferred, new_error_if,
}
use ossl_go.Params.{Builder, new_params, utf8, octets, int, uint, size_t, with_params, free}
use ossl_go.Params
use ossl_go.Context.{Context, context_ptr}

-- `64 << 20` of ossl/errors_common.go
abbrev pub max_output_length : ℕ
max_output_length = 67108864

unfoldable pub derive_kdf : Option Context → String → Builder → ℤ → Go Bytes
derive_kdf none name p n = fail closed
derive_kdf (some c) name p n = do
  refuse_if (is_nonpos n) output_not_positive
  refuse_if (ltb_ℤ (pos max_output_length) n) output_too_long
  clear_errors
  with_cstring name do
    using "EVP_KDF_fetch" (context_ptr (some c) ∷ str name ∷ null ∷ [])
        (str_append "EVP_KDF_fetch(" (str_append name ")")) "EVP_KDF_free"
        λ kdf. using "EVP_KDF_CTX_new" (ptr kdf ∷ []) "EVP_KDF_CTX_new" "EVP_KDF_CTX_free" λ ctx. do
          p' ← Params.c p
          r ←
              call_one "EVP_KDF_derive" (ptr ctx ∷ num n ∷ params p'.list ∷ [])
                (str_append "EVP_KDF_derive(" (str_append name ")"))
          pure (written (to_nat n) r.out (to_nat n))

-- A value of `KDFParams`: the cases of the type switch, and any other type.
pub data ParamValue : Type 0 where
  string_param : String → ParamValue
  bytes_param : Bytes → ParamValue
  int_param : ℤ → ParamValue
  uint_param : ℕ → ParamValue
  other_param : ParamValue

-- One round of the loop over the parameters; none is the `default` case.
abbrev add_param : String → ParamValue → Option (Builder → Go Builder)
add_param k (string_param t) = some (utf8 k t)
add_param k (bytes_param t) = some (octets k t)
add_param k (int_param t) = some (int k t)
add_param k (uint_param t) = some (uint k t)
add_param k other_param = none

-- The loop, which ends with the builder and whether it met an unsupported type.
pub add_params : List (String × ParamValue) → Builder → Go (Bool × Builder)
add_params [] p = pure (true, p)
add_params ((k, v) ∷ kp) p = elim (add_param k v) [
  | none ↦ pure (false, p)
  | some add ↦ add p >>= add_params kp
]

-- `defer p.free()` stands above the loop: it frees what the loop has added.
unfoldable pub derive : Option Context → String → List (String × ParamValue) → ℤ → Go Bytes
unfolding free add_params
derive c name kp n = do
  p ← new_params
  (supported, p') ← add_params kp p
  deferred (λ w. (free p' w).1)
      (if supported then derive_kdf c name p' n else fail (refused param_type))

-- EVP_KDF_HKDF_MODE_EXTRACT_AND_EXPAND and EVP_KDF_HKDF_MODE_EXPAND_ONLY of <openssl/kdf.h>
abbrev pub hkdf_extract_and_expand : ℤ
hkdf_extract_and_expand = pos 0

abbrev pub hkdf_expand_only : ℤ
hkdf_expand_only = pos 2

unfoldable pub hkdf : Option Context → String → Bytes → Bytes → Bytes → ℤ → Go Bytes
hkdf c digest secret salt info n =
    with_params
      (new_params
        >>= utf8 "digest" digest
        >>= octets "key" secret
        >>= octets "salt" salt
        >>= octets "info" info
        >>= int "mode" hkdf_extract_and_expand)
      λ p. derive_kdf c "HKDF" p n

unfoldable pub hkdf_expand : Option Context → String → Bytes → Bytes → ℤ → Go Bytes
hkdf_expand c digest prk info n =
    with_params
      (new_params
        >>= utf8 "digest" digest
        >>= octets "key" prk
        >>= octets "info" info
        >>= int "mode" hkdf_expand_only)
      λ p. derive_kdf c "HKDF" p n

abbrev pub max_pbkdf2_iterations : ℕ
max_pbkdf2_iterations = 10000000

-- `uint(iterations)` of a Go `int` is taken modulo 2 ^ 64.
unfoldable pub pbkdf2 : Option Context → String → Bytes → Bytes → ℤ → ℤ → Go Bytes
pbkdf2 c digest password salt iterations n = do
  refuse_if (is_nonpos iterations) iterations_not_positive
  refuse_if (ltb_ℤ (pos max_pbkdf2_iterations) iterations) iterations_too_many
  with_params
      (new_params
        >>= utf8 "digest" digest
        >>= octets "pass" password
        >>= octets "salt" salt
        >>= uint "iter" (Params.wrap 64 iterations))
      λ p. derive_kdf c "PBKDF2" p n

abbrev pub max_argon2_iterations : ℕ
max_argon2_iterations = 10000

abbrev pub max_argon2_memory_kib : ℕ
max_argon2_memory_kib = 4194304

abbrev pub max_argon2_lanes : ℕ
max_argon2_lanes = 1024

-- The named values of the Go `int` type, and any other value of it.
pub data Argon2Variant : Type 0 where
  argon2id argon2i argon2d unknown_variant : Argon2Variant

unfoldable pub variant_name : Argon2Variant → Result String
variant_name argon2id = ok "ARGON2ID"
variant_name argon2i = ok "ARGON2I"
variant_name argon2d = ok "ARGON2D"
variant_name unknown_variant = err (refused argon_variant)

pub record Argon2Params : Type 0 where
  pub iterations : ℕ
  pub memory_kib : ℕ
  pub lanes : ℕ
  pub associated_data : Bytes
  pub secret : Bytes

-- Zero fields take the defaults.
unfoldable pub with_defaults : Argon2Params → Argon2Params
with_defaults ap = record ap {
  iterations = if ap.iterations == 0 then 3 else ap.iterations;
  memory_kib = if ap.memory_kib == 0 then 65536 else ap.memory_kib;
  lanes = if ap.lanes == 0 then 1 else ap.lanes;
}

-- The section under `threadBudget`: read the context's budget, and raise it if it is too small. Every
-- path unlocks.
unfoldable pub raise_threads : Option Context → ℕ → Go (Unit {0})
raise_threads c lanes = do
  have ← call "OSSL_get_max_threads" (context_ptr c ∷ [])
  if ltb have.len lanes
      then (do
        call_one "OSSL_set_max_threads" (context_ptr c ∷ num (pos lanes) ∷ [])
            "OSSL_set_max_threads"
        pure tt)
      else pure tt

abbrev pub when_nonempty : String → Bytes → Builder → Go Builder
when_nonempty k b p = if not (length b == 0) then octets k b p else pure p

unfoldable pub argon2_params : Bytes → Bytes → Argon2Params → ℤ → Go Builder
argon2_params password salt ap n =
    new_params
    >>= octets "pass" password
    >>= octets "salt" salt
    >>= uint "iter" ap.iterations
    >>= uint "memcost" ap.memory_kib
    >>= uint "lanes" ap.lanes
    >>= uint "threads" ap.lanes
    >>= size_t "size" n
    >>= when_nonempty "ad" ap.associated_data
    >>= when_nonempty "secret" ap.secret

unfoldable pub argon2 : Option Context → Argon2Variant → Bytes → Bytes → Argon2Params → ℤ → Go Bytes
argon2 none variant password salt ap n = fail closed
argon2 (some c) variant password salt ap n = do
  alg ← lift (variant_name variant)
  refuse_if (ltb max_argon2_iterations ap.iterations) argon_iterations
  refuse_if (ltb max_argon2_memory_kib ap.memory_kib) argon_memory
  refuse_if (ltb max_argon2_lanes ap.lanes) argon_lanes
  let full = with_defaults ap
  if ltb 1 full.lanes then raise_threads (some c) full.lanes else pure tt
  with_params (argon2_params password salt full n) λ p. derive_kdf (some c) alg p n

unfoldable pub argon2id_derive : Option Context → Bytes → Bytes → Argon2Params → ℤ → Go Bytes
argon2id_derive c password salt ap n = argon2 c argon2id password salt ap n

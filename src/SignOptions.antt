-- ===== src/SignOptions.antt =====
-- The options of a signature (ossl/sign.go): which of them a key's algorithm can honour, and how they
-- are applied to the EVP_PKEY_CTX of the operation.
pub mod Check
pub mod Families
pub mod Calls
pub mod Applied
pub mod Balance
pub mod Tests
use ossl_go.Prelude.{
  ℕ, zero, suc, Bytes, Bool, true, false, not, ◌&&◌, ◌||◌, String, str_append, str_eq, List, [],
  ◌∷◌, Option, none, some, ltb, ◌==◌, if◌then◌else◌, length,
}
use ossl_go.Prelude.Int.{c_int, ℤ, pos, negsuc, eq_ℕ}
use ossl_go.Errors.{
  Result, ok, err, refused, Refusal, no_context, context_too_long, no_prehash, not_rsa_padding,
  not_rsa_salt, bad_salt, no_deterministic, not_rsa_mgf1, not_ec_format, pss_key_pkcs1,
}
use ossl_go.Cgo.{Go, Arg, num, str, ptr, null, params, pure, ◌>>=◌, ◌>>◌, call_pos, with_cstring}
use ossl_go.Params
use ossl_go.Params.{Builder, new_params, utf8, octets, int, with_params}
use ossl_go.Names.{has_prefix}
use ossl_go.Key.{Key, default_digest}

-- The named values of the Go `int` types, and any other value of them.
pub data RsaPadding : Type 0 where
  pss pkcs1v15 other_padding : RsaPadding

pub data SignatureFormat : Type 0 where
  der p1363 other_format : SignatureFormat

abbrev pub is_pss : RsaPadding → Bool
is_pss pss = true
is_pss _ = false

abbrev pub is_pkcs1v15 : RsaPadding → Bool
is_pkcs1v15 pkcs1v15 = true
is_pkcs1v15 _ = false

abbrev pub is_der : SignatureFormat → Bool
is_der der = true
is_der _ = false

abbrev pub is_p1363 : SignatureFormat → Bool
is_p1363 p1363 = true
is_p1363 _ = false

-- `f.String()`
pub format_name : SignatureFormat → String
format_name p1363 = "IEEE P1363"
format_name _ = "DER"

-- `context` is none for a nil slice, which is not the same as an empty one.
pub record SignOptions : Type 0 where
  pub digest : String
  pub context : Option Bytes
  pub prehash : Bool
  pub padding : RsaPadding
  pub pss_salt_len : ℤ
  pub mgf1_hash : String
  pub format : SignatureFormat
  pub deterministic : Bool

abbrev pub zero_options : SignOptions
zero_options = record {
  digest = "";
  context = none;
  prehash = false;
  padding = pss;
  pss_salt_len = pos 0;
  mgf1_hash = "";
  format = der;
  deterministic = false;
}

abbrev or_zero : Option SignOptions → SignOptions
or_zero none = zero_options
or_zero (some o) = o

-- `k.signOpts(o)`: a nil pointer is the zero value, and an empty digest the key's default.
unfoldable pub sign_opts : Option Key → Option SignOptions → SignOptions
sign_opts k opts =
    let o = or_zero opts in if str_eq o.digest "" then record o { digest = default_digest k } else o

abbrev pub max_context_length : ℕ
max_context_length = 255

abbrev pub is_rsa : String → Bool
is_rsa t = str_eq t "RSA" || str_eq t "RSA-PSS"

abbrev pub is_pqc : String → Bool
is_pqc t = has_prefix t "ML-DSA" || has_prefix t "SLH-DSA"

abbrev pub is_set {ℓ} : {A : Type ℓ} → Option A → Bool
is_set none = false
is_set (some a) = true

abbrev pub context_length : Option Bytes → ℕ
context_length none = 0
context_length (some b) = length b

abbrev pub is_negative : ℤ → Bool
is_negative (pos n) = false
is_negative (negsuc n) = true

-- `o.PSSSaltLen == PSSSaltLengthMax`, which is -1
abbrev pub is_salt_max : ℤ → Bool
is_salt_max (pos n) = false
is_salt_max (negsuc n) = n == 0

-- A chain of `if refuse { return fmt.Errorf(...) }`: the first condition that holds decides.
abbrev pub first_refusal : List (Bool × Refusal) → Result (Unit {0})
first_refusal [] = ok tt
first_refusal ((true, r) ∷ rest) = err (refused r)
first_refusal ((false, r) ∷ rest) = first_refusal rest

abbrev pub guards : String → SignOptions → List (Bool × Refusal)
guards t o =
    (is_set o.context && not (str_eq t "ED25519" || (str_eq t "ED448" || is_pqc t)), no_context)
    ∷ (ltb max_context_length (context_length o.context), context_too_long)
    ∷ (o.prehash && not (str_eq t "ED25519" || str_eq t "ED448"), no_prehash)
    ∷ (not (is_pss o.padding) && not (is_rsa t), not_rsa_padding)
    ∷ (not (eq_ℕ o.pss_salt_len 0) && not (is_rsa t), not_rsa_salt)
    ∷ (is_negative o.pss_salt_len && not (is_salt_max o.pss_salt_len), bad_salt)
    ∷ (o.deterministic && not (str_eq t "EC" || is_pqc t), no_deterministic)
    ∷ (not (str_eq o.mgf1_hash "") && not (is_rsa t), not_rsa_mgf1)
    ∷ (not (is_der o.format) && not (str_eq t "EC"), not_ec_format)
    ∷ (str_eq t "RSA-PSS" && is_pkcs1v15 o.padding, pss_key_pkcs1)
    ∷ []

unfoldable pub check_sign_options : String → SignOptions → Result (Unit {0})
check_sign_options t o = first_refusal (guards t o)

-- RSA_PKCS1_PADDING, RSA_PKCS1_PSS_PADDING, RSA_PSS_SALTLEN_MAX and RSA_PSS_SALTLEN_DIGEST of
-- <openssl/rsa.h>
abbrev pub rsa_pkcs1_padding : ℤ
rsa_pkcs1_padding = pos 1

abbrev pub rsa_pkcs1_pss_padding : ℤ
rsa_pkcs1_pss_padding = pos 6

abbrev pub rsa_pss_saltlen_max : ℤ
rsa_pss_saltlen_max = negsuc 2

abbrev pub rsa_pss_saltlen_digest : ℤ
rsa_pss_saltlen_digest = negsuc 0

-- the `switch` on the salt length
abbrev pub salt_arg : ℤ → ℤ
salt_arg (pos zero) = rsa_pss_saltlen_digest
salt_arg (pos (suc n)) = c_int (suc n)
salt_arg (negsuc n) = if n == 0 then rsa_pss_saltlen_max else rsa_pss_saltlen_digest

unfoldable pub apply_rsa : ℕ → SignOptions → String → Go (Unit {0})
apply_rsa pctx o digest =
    if is_pkcs1v15 o.padding
    then (do
      call_pos "EVP_PKEY_CTX_set_rsa_padding" (ptr pctx ∷ num rsa_pkcs1_padding ∷ [])
          "EVP_PKEY_CTX_set_rsa_padding"
      pure tt)
    else (do
      call_pos "EVP_PKEY_CTX_set_rsa_padding" (ptr pctx ∷ num rsa_pkcs1_pss_padding ∷ [])
          "EVP_PKEY_CTX_set_rsa_padding(PSS)"
      call_pos "EVP_PKEY_CTX_set_rsa_pss_saltlen" (ptr pctx ∷ num (salt_arg o.pss_salt_len) ∷ [])
          "EVP_PKEY_CTX_set_rsa_pss_saltlen"
      let mgf1 = if str_eq o.mgf1_hash "" then digest else o.mgf1_hash
      with_cstring mgf1 do
        call_pos "EVP_PKEY_CTX_set_rsa_mgf1_md_name" (ptr pctx ∷ str mgf1 ∷ null ∷ [])
            (str_append "EVP_PKEY_CTX_set_rsa_mgf1_md_name(" (str_append mgf1 ")"))
        pure tt)

-- `p := newParams(); defer p.free(); ...; C.EVP_PKEY_CTX_set_params(pctx, p.c())` with its check
unfoldable pub set_pkey_params : ℕ → Go Builder → String → Go (Unit {0})
set_pkey_params pctx build op = with_params build λ p. do
  p' ← Params.c p
  call_pos "EVP_PKEY_CTX_set_params" (ptr pctx ∷ params p'.list ∷ []) op
  pure tt

unfoldable pub apply_deterministic_pqc : ℕ → Go (Unit {0})
apply_deterministic_pqc pctx =
    set_pkey_params pctx (new_params >>= int "deterministic" (pos 1))
      "EVP_PKEY_CTX_set_params(deterministic)"

unfoldable pub apply_context : ℕ → Option Bytes → Go (Unit {0})
apply_context pctx none = pure tt
apply_context pctx (some context) =
    set_pkey_params pctx (new_params >>= octets "context-string" context)
      "EVP_PKEY_CTX_set_params(context-string)"

abbrev pub add_context : Option Bytes → Builder → Go Builder
add_context none p = pure p
add_context (some context) p = octets "context-string" context p

abbrev pub set_instance : ℕ → String → SignOptions → Go (Unit {0})
set_instance pctx name o =
    set_pkey_params pctx (new_params >>= utf8 "instance" name >>= add_context o.context)
      (str_append "EVP_PKEY_CTX_set_params(" (str_append name ")"))

unfoldable pub apply_ed25519 : ℕ → SignOptions → Go (Unit {0})
apply_ed25519 pctx o =
    if o.prehash
    then set_instance pctx "Ed25519ph" o
    else if is_set o.context
    then set_instance pctx "Ed25519ctx" o
    else pure tt

unfoldable pub apply_ed448 : ℕ → SignOptions → Go (Unit {0})
apply_ed448 pctx o =
    if not o.prehash then apply_context pctx o.context else set_instance pctx "Ed448ph" o

unfoldable pub apply_deterministic_ecdsa : ℕ → Go (Unit {0})
apply_deterministic_ecdsa pctx =
    set_pkey_params pctx (new_params >>= int "nonce-type" (pos 1))
      "EVP_PKEY_CTX_set_params(nonce-type)"

unfoldable pub apply_sign_options : ℕ → String → SignOptions → Go (Unit {0})
apply_sign_options pctx t o =
    if is_rsa t
    then apply_rsa pctx o o.digest
    else if str_eq t "EC"
    then if o.deterministic then apply_deterministic_ecdsa pctx else pure tt
    else if str_eq t "ED25519"
    then apply_ed25519 pctx o
    else if str_eq t "ED448"
    then apply_ed448 pctx o
    else if is_pqc t
    then (do
      apply_context pctx o.context
      if o.deterministic then apply_deterministic_pqc pctx else pure tt)
    else pure tt

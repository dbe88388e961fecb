-- ===== src/Key.antt =====
-- ossl/pkey.go: asymmetric keys. A receiver is an `Option`: none is the nil pointer.
pub mod Balance
pub mod Made
pub mod Refs
pub mod Tests
use ossl_go.Prelude.{
  ℕ, suc, Bool, true, false, not, ◌||◌, String, str_append, List, [], ◌∷◌, Option, none, some, ltb,
  leb, ◌==◌, if◌then◌else◌, length,
}
use ossl_go.Prelude.Int.{ℤ, pos, is_nonpos}
use ossl_go.Errors.{Result, ok, err, closed}
use ossl_go.Cgo.{
  World, Go, Arg, num, str, ptr, null, params, KeyInfo, Reply, pure, fail, ◌>>=◌, ◌>>◌, call,
  call_pos, clear_errors, using, with_cstring, bump, release, new_error,
}
use ossl_go.Params
use ossl_go.Params.{Builder, new_params, utf8, octets, int, uint, size_t, free, with_params}
use ossl_go.Context.{Context, default, context_ptr}
use ossl_go.Names.{upper_has_prefix}

-- A reference on an EVP_PKEY: its address, and what the key reports of itself.
pub record Pkey : Type 0 where
  pub addr : ℕ
  pub info : KeyInfo

-- `pkey` is none once the key is closed; `ctx` is none for a key made by hand.
pub record Key : Type 0 where
  pub pkey : Option Pkey
  pub ctx : Option Context

-- The EVP_PKEY behind a receiver; none if the receiver is nil or closed.
abbrev pub pkey_of : Option Key → Option Pkey
pkey_of none = none
pkey_of (some k) = k.pkey

-- `if k == nil || k.pkey == nil { return ErrClosed }`, and the rest.
abbrev pub when_open {ℓ} : {A : Type ℓ} → Option Pkey → (Pkey → Go A) → Go A
when_open none body = fail closed
when_open (some p) body = body p

-- `k.Type()`, `k.Bits()`, `k.SecurityBits()`, `k.Size()`
abbrev pub key_type : Option Key → String
key_type k = elim (pkey_of k) [ none ↦ "" | some p ↦ p.info.type_name ]

abbrev pub key_bits : Option Key → ℕ
key_bits k = elim (pkey_of k) [ none ↦ 0 | some p ↦ p.info.bits ]

abbrev pub key_security_bits : Option Key → ℕ
key_security_bits k = elim (pkey_of k) [ none ↦ 0 | some p ↦ p.info.security_bits ]

abbrev pub key_size : Option Key → ℕ
key_size k = elim (pkey_of k) [ none ↦ 0 | some p ↦ p.info.size ]

-- `k.context()`
unfoldable pub key_context : Option Key → Context
key_context none = default
key_context (some k) = elim k.ctx [ none ↦ default | some c ↦ c ]

unfoldable pub one_shot_type : String → Bool
one_shot_type t =
    upper_has_prefix t "ED25519"
    || (upper_has_prefix t "ED448" || (upper_has_prefix t "ML-DSA" || upper_has_prefix t "SLH-DSA"))

-- `k.oneShotOnly()`
abbrev pub one_shot_only : Option Key → Bool
one_shot_only k = one_shot_type (key_type k)

-- `k.defaultDigest()`
unfoldable pub default_digest : Option Key → String
default_digest k =
    if one_shot_only k then "" else if leb 192 (key_security_bits k) then "SHA2-384" else "SHA2-256"

-- A generation option; `WithParam` with a value of another type adds nothing.
pub data KeyOption : Type 0 where
  rsa_bits : ℤ → KeyOption
  group : String → KeyOption
  string_option : String → String → KeyOption
  bytes_option : String → List ℕ → KeyOption
  int_option : String → ℤ → KeyOption
  uint_option : String → ℕ → KeyOption
  other_option : String → KeyOption

abbrev pub apply_option : KeyOption → Builder → Go Builder
apply_option (rsa_bits b) p = size_t "bits" b p
apply_option (group g) p = utf8 "group" g p
apply_option (string_option k v) p = utf8 k v p
apply_option (bytes_option k v) p = octets k v p
apply_option (int_option k v) p = int k v p
apply_option (uint_option k v) p = uint k v p
apply_option (other_option k) p = pure p

-- `for _, o := range opts { o(p) }`
unfoldable pub apply_options : List KeyOption → Builder → Go Builder
unfolding pure
apply_options [] p = pure p
apply_options (o ∷ os) p = apply_option o p >>= apply_options os

-- The options of a key generation, if there are any.
unfoldable pub set_key_options : ℕ → List KeyOption → Go (Unit {0})
set_key_options kctx [] = pure tt
set_key_options kctx (o ∷ os) = with_params (new_params >>= apply_options (o ∷ os)) λ p. do
  p' ← Params.c p
  call_pos "EVP_PKEY_CTX_set_params" (ptr kctx ∷ params p'.list ∷ []) "EVP_PKEY_CTX_set_params"
  pure tt

abbrev pub own : Reply → Go Pkey
own r w = (
  ok (record { addr = w.next; info = r.key }),
  record w { live = bump w.live w.next; next = suc w.next },
)

-- `EVP_PKEY_generate` with its check: a positive answer hands over a reference on a new key.
unfoldable pub generate : ℕ → String → Go Pkey
unfolding pure ◌>>=◌ call new_error
generate kctx op = do
  r ← call "EVP_PKEY_generate" (ptr kctx ∷ [])
  if is_nonpos r.rc then new_error op else own r

-- `c.GenerateKey(algorithm, opts...)`
unfoldable pub generate_key : Option Context → String → List KeyOption → Go Key
generate_key none algorithm opts = fail closed
generate_key (some c) algorithm opts = do
  clear_errors
  with_cstring algorithm do
    using "EVP_PKEY_CTX_new_from_name" (context_ptr (some c) ∷ str algorithm ∷ null ∷ [])
        (str_append "EVP_PKEY_CTX_new_from_name(" (str_append algorithm ")")) "EVP_PKEY_CTX_free"
        λ kctx. do
          call_pos "EVP_PKEY_keygen_init" (ptr kctx ∷ []) "EVP_PKEY_keygen_init"
          set_key_options kctx opts
          p ← generate kctx (str_append "EVP_PKEY_generate(" (str_append algorithm ")"))
          pure (record { pkey = some p; ctx = some c })

-- `k.Close()` of a key that is not nil, as the key that it leaves.
unfoldable pub close_key : Key → Go Key
unfolding pure release
close_key k w = elim k.pkey [
  | none ↦ (ok k, w)
  | some p ↦ (ok (record k { pkey = none }), release "EVP_PKEY_free" p.addr w)
]

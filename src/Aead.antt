-- ===== src/Aead.antt =====
-- ossl/cipher.go: authenticated encryption. The locks and the overwriting of Go memory are not
-- modelled.
pub mod Balance
pub mod Opened
pub mod Sizes
pub mod Tests
use Prim.Native.Nat.{bit_and}
use ossl_go.Prelude.{
  ℕ, ◌+◌, ◌-◌, ◌%◌, Bytes, Bool, true, false, not, ◌&&◌, ◌||◌, String, str_append, List, [], ◌∷◌,
  ◌++◌, Option, none, some, ltb, leb, ◌==◌, if◌then◌else◌, length, take, drop, replicate,
}
use ossl_go.Prelude.Int.{ℤ, pos, eq_ℕ, ltb_ℤ, to_nat, c_int}
use ossl_go.Errors.{
  Error, Result, ok, err, panic, closed, verification, refused, Refusal, unless, key_length,
  not_aead, nonce_range, tag_range, nonce_length,
}
use ossl_go.Cgo.{
  World, Go, Arg, num, bytes, str, ptr, null, params, Reply, pure, fail, abort, lift, ◌>>=◌, ◌>>◌,
  call, call_one, acquire_or, owning, release, using, with_cstring, clear_errors, new_error,
  refuse_if, written,
}
use ossl_go.Params
use ossl_go.Params.{Builder, new_params, size_t, octets, octets_nil_data, octets_out, with_params}
use ossl_go.Context.{Context, context_ptr}
use ossl_go.Cipher.{
  is_aead_cipher, ccm_mode, max_block_length, first_byte, Buffer, update_part, final_part, overlay,
  cut,
}

-- `nonce` and `tag` are sizes, of the Go type `int`.
pub record Aead : Type 0 where
  pub cipher : ℕ
  pub key : Bytes
  pub name : String
  pub nonce : ℤ
  pub tag : ℤ
  pub ccm : Bool
  pub is_closed : Bool

pub record AeadConfig : Type 0 where
  pub iv_len : ℤ
  pub tag_len : ℤ

pub data AeadOption : Type 0 where
  with_iv_size : ℤ → AeadOption
  with_tag_size : ℤ → AeadOption

abbrev pub apply_aead_option : AeadConfig → AeadOption → AeadConfig
apply_aead_option cfg (with_iv_size n) = record cfg { iv_len = n }
apply_aead_option cfg (with_tag_size n) = record cfg { tag_len = n }

abbrev pub configure_aead : AeadConfig → List AeadOption → AeadConfig
configure_aead cfg [] = cfg
configure_aead cfg (o ∷ os) = configure_aead (apply_aead_option cfg o) os

abbrev outside : ℕ → ℕ → ℤ → Bool
outside low high n = ltb_ℤ n (pos low) || ltb_ℤ (pos high) n

-- `n%2 != 0`, of a number that is not negative
abbrev is_odd : ℤ → Bool
is_odd n = not (to_nat n % 2 == 0)

abbrev then_unless : Result (Unit {0}) → Result (Unit {0}) → Result (Unit {0})
then_unless (ok u) next = next
then_unless r next = r

unfoldable pub validate_aead_sizes : Bool → AeadConfig → Result (Unit {0})
validate_aead_sizes true cfg =
    then_unless (unless (outside 7 13 cfg.iv_len) nonce_range)
      (unless (outside 4 16 cfg.tag_len || is_odd cfg.tag_len) tag_range)
validate_aead_sizes false cfg =
    then_unless (unless (ltb_ℤ cfg.iv_len (pos 1)) nonce_range)
      (unless (outside 12 16 cfg.tag_len) tag_range)

-- The checks of `NewAEAD` on a fetched cipher, and the object it makes.
unfoldable pub make_aead : ℕ → String → Bytes → List AeadOption → Go Aead
make_aead ci name key opts = do
  want ← call "EVP_CIPHER_get_key_length" (ptr ci ∷ [])
  refuse_if (not (length key == want.len)) key_length
  mode ← call "EVP_CIPHER_get_mode" (ptr ci ∷ [])
  aead ← is_aead_cipher ci mode.len
  refuse_if (not aead) not_aead
  iv ← call "EVP_CIPHER_get_iv_length" (ptr ci ∷ [])
  let start : AeadConfig = record { iv_len = pos iv.len; tag_len = pos 16 }
  let cfg = configure_aead start opts
  lift (validate_aead_sizes (mode.len == ccm_mode) cfg)
  pure (record {
    cipher = ci;
    key = key;
    name = name;
    nonce = cfg.iv_len;
    tag = cfg.tag_len;
    ccm = mode.len == ccm_mode;
    is_closed = false;
  })

unfoldable pub new_aead : Option Context → String → Bytes → List AeadOption → Go Aead
new_aead none name key opts = fail closed
new_aead (some c) name key opts = do
  clear_errors
  with_cstring name do
    ci ←
        acquire_or "EVP_CIPHER_fetch" (context_ptr (some c) ∷ str name ∷ null ∷ [])
          (str_append "EVP_CIPHER_fetch(" (str_append name ")"))
    owning "EVP_CIPHER_free" ci (make_aead ci name key opts)

-- The two calls of the CCM initialisation, and the one of the others. `tag` adds the parameter for
-- the tag or its size.
unfoldable pub init_aead : String → ℕ → Aead → Bytes → (Builder → Go Builder) → Go (Unit {0})
init_aead f ctx a nonce tag = with_params (new_params >>= size_t "ivlen" a.nonce >>= tag) λ p. do
  p' ← Params.c p
  if a.ccm
      then (do
        call_one f (ptr ctx ∷ ptr a.cipher ∷ null ∷ null ∷ params p'.list ∷ [])
            (str_append f "(sizes)")
        first_byte a.key
        first_byte nonce
        call_one f (ptr ctx ∷ null ∷ bytes a.key ∷ bytes nonce ∷ null ∷ [])
            (str_append f "(key+iv)")
        pure tt)
      else (do
        first_byte a.key
        first_byte nonce
        call_one f (ptr ctx ∷ ptr a.cipher ∷ bytes a.key ∷ bytes nonce ∷ params p'.list ∷ []) f
        pure tt)

abbrev pub tag_size_param : Aead → Builder → Go Builder
tag_size_param a p = if a.ccm then octets_nil_data "tag" a.tag p else size_t "taglen" a.tag p

-- A call without an output buffer: the length hint of CCM, and the additional data.
abbrev pub feed : String → ℕ → Arg → ℕ → Go (Unit {0}) → Go (Unit {0})
feed f ctx input n otherwise = do
  r ← call f (ptr ctx ∷ null ∷ input ∷ num (c_int n) ∷ [])
  if eq_ℕ r.rc 1 then pure tt else otherwise

abbrev pub when : Bool → Go (Unit {0}) → Go (Unit {0})
when b m = if b then m else pure tt

abbrev pub read_tag : ℕ → Aead → Go Bytes
read_tag ctx a = with_params (new_params >>= λ p. octets_out "tag" a.tag p >>= λ q. pure q.1) λ p.
    do
      p' ← Params.c p
      r ←
          call_one "EVP_CIPHER_CTX_get_params" (ptr ctx ∷ params p'.list ∷ [])
            "EVP_CIPHER_CTX_get_params(tag)"
      pure (written (to_nat a.tag) r.out (to_nat a.tag))

abbrev pub buffer_size : Bytes → ℕ
buffer_size xs = length xs + max_block_length

-- CCM makes a call for an empty message too.
unfoldable pub seal_body : Aead → ℕ → Bytes → Go Buffer
seal_body a ctx plaintext =
    if not (length plaintext == 0)
    then update_part "EVP_EncryptUpdate" ctx plaintext (buffer_size plaintext) "EVP_EncryptUpdate"
    else if a.ccm
    then (do
      r ←
          call_one "EVP_EncryptUpdate"
            (ptr ctx ∷ num (pos (buffer_size plaintext)) ∷ bytes [] ∷ num (pos 0) ∷ [])
            "EVP_EncryptUpdate(empty)"
      pure (0, overlay (replicate (buffer_size plaintext) 0) 0 r.out))
    else pure (0, replicate (buffer_size plaintext) 0)

-- `a.SealErr(dst, nonce, plaintext, aad)`
unfoldable pub seal_err : Option Aead → Bytes → Bytes → Bytes → Bytes → Go Bytes
seal_err none dst nonce plaintext aad = fail closed
seal_err (some a) dst nonce plaintext aad = if a.is_closed then fail closed else (do
  refuse_if (not (eq_ℕ a.nonce (length nonce))) nonce_length
  clear_errors
  using "EVP_CIPHER_CTX_new" [] "EVP_CIPHER_CTX_new" "EVP_CIPHER_CTX_free" λ ctx. do
    init_aead "EVP_EncryptInit_ex2" ctx a nonce (tag_size_param a)
    when a.ccm (
        feed "EVP_EncryptUpdate" ctx null (length plaintext)
          (new_error "EVP_EncryptUpdate(length hint)"))
    when (not (length aad == 0))
        (feed "EVP_EncryptUpdate" ctx (bytes aad) (length aad) (new_error "EVP_EncryptUpdate(aad)"))
    buf ← seal_body a ctx plaintext
    out ← final_part "EVP_EncryptFinal_ex" ctx buf "EVP_EncryptFinal_ex"
    tag ← read_tag ctx a
    pure ((dst ++ out) ++ tag))

-- `a.Seal`, which panics where `SealErr` returns an error
abbrev pub or_panic : Result Bytes → Result Bytes
or_panic (err e) = panic "ossl: Seal"
or_panic r = r

unfoldable pub seal : Option Aead → Bytes → Bytes → Bytes → Bytes → Go Bytes
seal a dst nonce plaintext aad w =
    let (r, w') = seal_err a dst nonce plaintext aad w in (or_panic r, w')

-- `clearErrors(); return nil, ErrVerification`
abbrev pub reject {ℓ} : {A : Type ℓ} → Go A
reject = clear_errors >> fail verification

-- `Open` clears the queue before it reads it.
unfoldable pub open_body : Aead → ℕ → Bytes → Go Buffer
open_body a ctx body =
    if not (length body == 0)
    then (do
      r ←
          call "EVP_DecryptUpdate"
            (ptr ctx ∷ num (pos (buffer_size body)) ∷ bytes body ∷ num (c_int (length body)) ∷ [])
      if eq_ℕ r.rc 1
          then pure (r.len, overlay (replicate (buffer_size body) 0) 0 r.out)
          else (clear_errors
              >> (if a.ccm then fail verification else new_error "EVP_DecryptUpdate")))
    else if a.ccm
    then (do
      r ←
          call "EVP_DecryptUpdate"
            (ptr ctx ∷ num (pos (buffer_size body)) ∷ bytes [] ∷ num (pos 0) ∷ [])
      if eq_ℕ r.rc 1 then pure (0, overlay (replicate (buffer_size body) 0) 0 r.out) else reject)
    else pure (0, replicate (buffer_size body) 0)

unfoldable pub open_final : ℕ → Buffer → Go Bytes
open_final ctx (total, buf) = if leb (length buf) total then abort "index out of range" else (do
  r ← call "EVP_DecryptFinal_ex" (ptr ctx ∷ [])
  if eq_ℕ r.rc 1 then cut (total + r.len) (overlay buf total r.out) else reject)

-- `ciphertext[:len(ciphertext)-a.tag]` and `ciphertext[len(ciphertext)-a.tag:]`
abbrev pub sealed_body : Aead → Bytes → Bytes
sealed_body a ciphertext = take (length ciphertext - to_nat a.tag) ciphertext

abbrev pub sealed_tag : Aead → Bytes → Bytes
sealed_tag a ciphertext = drop (length ciphertext - to_nat a.tag) ciphertext

-- `a.Open(dst, nonce, ciphertext, aad)`
unfoldable pub open_aead : Option Aead → Bytes → Bytes → Bytes → Bytes → Go Bytes
open_aead none dst nonce ciphertext aad = fail closed
open_aead (some a) dst nonce ciphertext aad = if a.is_closed then fail closed else (do
  refuse_if (not (eq_ℕ a.nonce (length nonce))) nonce_length
  if ltb_ℤ (pos (length ciphertext)) a.tag then fail verification else (do
    clear_errors
    using "EVP_CIPHER_CTX_new" [] "EVP_CIPHER_CTX_new" "EVP_CIPHER_CTX_free" λ ctx. do
      init_aead "EVP_DecryptInit_ex2" ctx a nonce (octets "tag" (sealed_tag a ciphertext))
      when a.ccm (feed "EVP_DecryptUpdate" ctx null (length (sealed_body a ciphertext)) reject)
      when (not (length aad == 0)) (
          feed "EVP_DecryptUpdate" ctx (bytes aad) (length aad)
            (if a.ccm then reject else new_error "EVP_DecryptUpdate(aad)"))
      buf ← open_body a ctx (sealed_body a ciphertext)
      out ← open_final ctx buf
      pure (dst ++ out)))

-- `a.Close()` of an AEAD that is not nil, as the one that it leaves.
unfoldable pub close_aead : Aead → Go Aead
close_aead a w = if a.is_closed then (ok a, w) else (
  ok (record a { cipher = 0; key = []; is_closed = true }),
  release "EVP_CIPHER_free" a.cipher w,
)

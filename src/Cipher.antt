-- ===== src/Cipher.antt =====
-- ossl/cipher_sym.go: block and stream ciphers without authentication, and AES key wrap. The locks
-- and the overwriting of Go memory are not modelled. A block size is positive.
pub mod Balance
pub mod Uniform
pub mod Tests
use Prim.Native.Nat.{bit_and}
use ossl_go.Prelude.{
  ℕ, ◌+◌, ◌-◌, ◌%◌, ◌^◌, Bytes, Bool, true, false, not, ◌&&◌, ◌||◌, String, str_append, List, [],
  ◌∷◌, ◌++◌, Option, none, some, ltb, leb, ◌==◌, if◌then◌else◌, length, take, drop, replicate,
}
use ossl_go.Prelude.Int.{c_int, ℤ, pos, negsuc, eq_ℕ, ltb_ℤ}
use ossl_go.Errors.{
  Error, Result, ok, err, panic, closed, verification, refused, Refusal, key_length, aead_mode,
  iv_range, padding_scheme, iv_length, not_whole_blocks, kek_length, nothing_to_wrap, wrap_length,
}
use ossl_go.Cgo.{
  World, Go, Arg, num, bytes, str, ptr, null, Reply, pure, fail, abort, lift, ◌>>=◌, ◌>>◌, attempt,
  call, call_one, acquire_or, owning, release, using, with_cstring, clear_errors, refuse_if,
}
use ossl_go.Context.{Context, context_ptr}
use ossl_go.Padding.{PaddingScheme, pkcs7, no_padding, unknown, apply_padding, remove_padding}

-- `cipher` and `key` are dropped by Close.
pub record Cipher : Type 0 where
  pub cipher : ℕ
  pub key : Bytes
  pub name : String
  pub iv_len : ℤ
  pub block_size : ℕ
  pub padding : PaddingScheme
  pub stream : Bool
  pub is_closed : Bool

pub data CipherOption : Type 0 where
  with_padding : PaddingScheme → CipherOption
  with_cipher_iv_size : ℤ → CipherOption

pub record CipherConfig : Type 0 where
  pub padding : PaddingScheme
  pub iv_len : ℤ
  pub iv_set : Bool

abbrev pub apply_cipher_option : CipherConfig → CipherOption → CipherConfig
apply_cipher_option cfg (with_padding p) = record cfg { padding = p }
apply_cipher_option cfg (with_cipher_iv_size n) = record cfg { iv_len = n; iv_set = true }

abbrev pub configure : CipherConfig → List CipherOption → CipherConfig
configure cfg [] = cfg
configure cfg (o ∷ os) = configure (apply_cipher_option cfg o) os

-- EVP_CIPH_GCM_MODE, EVP_CIPH_CCM_MODE, EVP_CIPH_OCB_MODE and EVP_CIPH_FLAG_AEAD_CIPHER of
-- <openssl/evp.h>
abbrev pub gcm_mode : ℕ
gcm_mode = 0x6

abbrev pub ccm_mode : ℕ
ccm_mode = 0x7

abbrev pub ocb_mode : ℕ
ocb_mode = 0x10003

abbrev pub flag_aead_cipher : ℕ
flag_aead_cipher = 0x200000

abbrev pub max_block_length : ℕ
max_block_length = 32

-- The flags are read only if the mode does not decide.
unfoldable pub is_aead_cipher : ℕ → ℕ → Go Bool
is_aead_cipher ci mode =
    if (mode == gcm_mode) || ((mode == ccm_mode) || (mode == ocb_mode)) then pure true else (do
      r ← call "EVP_CIPHER_get_flags" (ptr ci ∷ [])
      pure (not (bit_and r.len flag_aead_cipher == 0)))

abbrev pub is_unknown : PaddingScheme → Bool
is_unknown unknown = true
is_unknown _ = false

abbrev pub is_pkcs7 : PaddingScheme → Bool
is_pkcs7 pkcs7 = true
is_pkcs7 _ = false

abbrev pub is_no_padding : PaddingScheme → Bool
is_no_padding no_padding = true
is_no_padding _ = false

-- The checks of `NewCipher` on a fetched cipher, and the object it makes.
unfoldable pub make_cipher : ℕ → String → Bytes → List CipherOption → Go Cipher
make_cipher ci name key opts = do
  mode ← call "EVP_CIPHER_get_mode" (ptr ci ∷ [])
  aead ← is_aead_cipher ci mode.len
  refuse_if aead aead_mode
  want ← call "EVP_CIPHER_get_key_length" (ptr ci ∷ [])
  refuse_if (not (length key == want.len)) key_length
  iv ← call "EVP_CIPHER_get_iv_length" (ptr ci ∷ [])
  let start : CipherConfig = record { padding = pkcs7; iv_len = pos iv.len; iv_set = false }
  let cfg = configure start opts
  refuse_if (cfg.iv_set && (ltb_ℤ cfg.iv_len (pos 0) || ltb_ℤ (pos 1024) cfg.iv_len)) iv_range
  refuse_if (is_unknown cfg.padding) padding_scheme
  block ← call "EVP_CIPHER_get_block_size" (ptr ci ∷ [])
  pure (record {
    cipher = ci;
    key = key;
    name = name;
    iv_len = cfg.iv_len;
    block_size = block.len;
    padding = cfg.padding;
    stream = block.len == 1;
    is_closed = false;
  })

unfoldable pub new_cipher : Option Context → String → Bytes → List CipherOption → Go Cipher
new_cipher none name key opts = fail closed
new_cipher (some c) name key opts = do
  clear_errors
  with_cstring name do
    ci ←
        acquire_or "EVP_CIPHER_fetch" (context_ptr (some c) ∷ str name ∷ null ∷ [])
          (str_append "EVP_CIPHER_fetch(" (str_append name ")"))
    owning "EVP_CIPHER_free" ci (make_cipher ci name key opts)

-- `&b[0]`
abbrev pub first_byte : Bytes → Go (Unit {0})
first_byte [] = abort "index out of range"
first_byte (b ∷ bs) = pure tt

-- a pointer to the first byte, or NULL for an empty slice
abbrev pub slice_ptr : Bytes → Arg
slice_ptr [] = null
slice_ptr (b ∷ bs) = bytes (b ∷ bs)

-- `buf` after C wrote `out` at `at`
abbrev pub overlay : Bytes → ℕ → Bytes → Bytes
overlay buf at out = take at buf ++ (take (length buf - at) out ++ drop (at + length out) buf)

-- How many bytes of the buffer are written, and the buffer.
abbrev pub Buffer : Type 0
Buffer = ℕ × Bytes

unfoldable pub update_part : String → ℕ → Bytes → ℕ → String → Go Buffer
update_part f ctx xs size op = do
  r ← call_one f (ptr ctx ∷ num (pos size) ∷ bytes xs ∷ num (c_int (length xs)) ∷ []) op
  pure (r.len, overlay (replicate size 0) 0 r.out)

-- `buf[:total]`
abbrev pub cut : ℕ → Bytes → Go Bytes
cut total buf =
    if ltb (length buf) total then abort "slice bounds out of range" else pure (take total buf)

unfoldable pub final_part : String → ℕ → Buffer → String → Go Bytes
final_part f ctx (total, buf) op =
    if leb (length buf) total
    then abort "index out of range"
    else (do r ← call_one f (ptr ctx ∷ []) op; cut (total + r.len) (overlay buf total r.out))

abbrev pub init_fn : Bool → String
init_fn encrypt = if encrypt then "EVP_EncryptInit_ex2" else "EVP_DecryptInit_ex2"

abbrev pub update_fn : Bool → String
update_fn encrypt = if encrypt then "EVP_EncryptUpdate" else "EVP_DecryptUpdate"

abbrev pub final_fn : Bool → String
final_fn encrypt = if encrypt then "EVP_EncryptFinal_ex" else "EVP_DecryptFinal_ex"

abbrev pub pad_flag : PaddingScheme → ℕ
pad_flag p = if is_pkcs7 p then 1 else 0

-- libcrypto pads only for PKCS#7; a stream cipher has no padding to set.
unfoldable pub set_cipher_padding : ℕ → Cipher → Go (Unit {0})
set_cipher_padding ctx x = if x.stream then pure tt else (do
  call_one "EVP_CIPHER_CTX_set_padding" (ptr ctx ∷ num (pos (pad_flag x.padding)) ∷ [])
      "EVP_CIPHER_CTX_set_padding"
  pure tt)

-- `x.run(iv, in, encrypt)`
unfoldable pub run : Cipher → Bytes → Bytes → Bool → Go Bytes
run x iv xs encrypt = do
  clear_errors
  using "EVP_CIPHER_CTX_new" [] "EVP_CIPHER_CTX_new" "EVP_CIPHER_CTX_free" λ ctx. do
    first_byte x.key
    call_one (init_fn encrypt) (ptr ctx ∷ ptr x.cipher ∷ bytes x.key ∷ slice_ptr iv ∷ null ∷ [])
        "cipher init"
    set_cipher_padding ctx x
    let size = length xs + x.block_size + max_block_length
    buf ←
        if length xs == 0
        then pure (0, replicate size 0)
        else update_part (update_fn encrypt) ctx xs size "cipher update"
    final_part (final_fn encrypt) ctx buf "cipher final"

-- What `Encrypt` hands to `run`, and what `Decrypt` makes of what it returns.
abbrev pub pad_input : Cipher → Bytes → Result Bytes
pad_input x xs =
    if not x.stream && not (is_pkcs7 x.padding)
    then apply_padding x.padding xs x.block_size
    else ok xs

abbrev pub unpad_output : Cipher → Bytes → Result Bytes
unpad_output x xs =
    if not x.stream && not (is_pkcs7 x.padding)
    then remove_padding x.padding xs x.block_size
    else ok xs

unfoldable pub encrypt : Option Cipher → Bytes → Bytes → Bytes → Go Bytes
encrypt none dst iv plaintext = fail closed
encrypt (some x) dst iv plaintext = if x.is_closed then fail closed else (do
  refuse_if (not (eq_ℕ x.iv_len (length iv))) iv_length
  xs ← lift (pad_input x plaintext)
  refuse_if (not x.stream && (is_no_padding x.padding && not (length xs % x.block_size == 0)))
      not_whole_blocks
  out ← run x iv xs true
  pure (dst ++ out))

-- `if err != nil { clearErrors(); return nil, ErrVerification }`
abbrev pub or_verification : Result Bytes → Go Bytes
or_verification (ok out) = pure out
or_verification (err e) = clear_errors >> fail verification
or_verification (panic s) = abort s

unfoldable pub decrypt : Option Cipher → Bytes → Bytes → Bytes → Go Bytes
decrypt none dst iv ciphertext = fail closed
decrypt (some x) dst iv ciphertext = if x.is_closed then fail closed else (do
  refuse_if (not (eq_ℕ x.iv_len (length iv))) iv_length
  if not x.stream && not (length ciphertext % x.block_size == 0) then fail verification else (do
    r ← attempt (run x iv ciphertext false)
    padded ← or_verification r
    out ← lift (unpad_output x padded)
    pure (dst ++ out)))

-- `x.Close()` of a cipher that is not nil, as the cipher that it leaves.
unfoldable pub close_cipher : Cipher → Go Cipher
close_cipher x w = if x.is_closed then (ok x, w) else (
  ok (record x { cipher = 0; key = []; is_closed = true }),
  release "EVP_CIPHER_free" x.cipher w,
)

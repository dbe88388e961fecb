-- ===== src/Asym.antt =====
-- ossl/asym.go: RSA encryption, key encapsulation and key agreement.
pub mod Balance
pub mod Uniform
pub mod Tests
use ossl_go.Prelude.{
  ℕ, suc, ◌+◌, ◌-◌, ◌*◌, Bytes, Bool, true, false, not, ◌&&◌, ◌||◌, String, str_append, str_eq,
  List, [], ◌∷◌, ◌++◌, Option, none, some, ltb, leb, ◌==◌, if◌then◌else◌, length,
}
use ossl_go.Prelude.Int.{ℤ, pos, negsuc, is_nonpos, c_int}
use ossl_go.Errors.{
  closed, verification, refused, not_rsa_key, too_small_for_oaep, malloc_failed,
  empty_encapsulation, type_mismatch, not_ec_cofactor, empty_secret,
}
use ossl_go.Cgo.{
  Go, Arg, num, bytes, str, ptr, null, Reply, pure, fail, abort, ◌>>=◌, ◌>>◌, call, call_pos,
  acquire, clear_errors, using, with_cstring, new_error, refuse_if, free_now, hand_over, deferred,
  written,
}
use ossl_go.Names.{equal_fold, utf8_bytes}
use ossl_go.Context.{default, context_ptr}
use ossl_go.Key.{Key, Pkey, pkey_of, when_open, key_type, key_size, key_context}
use ossl_go.Sign.{slice_to}
use ossl_go.Digest.{Hash, new_hash, closing}
use ossl_go.Kdf.{hkdf}

pub record OaepOptions : Type 0 where
  pub hash : String
  pub mgf1_hash : String
  pub label : Bytes

abbrev or_default : String → String → String
or_default d s = if str_eq s "" then d else s

-- `o.resolve()`: the digest, the digest of the mask, and the label.
unfoldable pub resolve : Option OaepOptions → String × String × Bytes
resolve none = ("SHA2-256", "SHA2-256", [])
resolve (some o) =
    let hash = or_default "SHA2-256" o.hash in (hash, or_default hash o.mgf1_hash, o.label)

-- RSA_PKCS1_PADDING and RSA_PKCS1_OAEP_PADDING of <openssl/rsa.h>
abbrev pub rsa_pkcs1_padding : ℤ
rsa_pkcs1_padding = pos 1

abbrev pub rsa_pkcs1_oaep_padding : ℤ
rsa_pkcs1_oaep_padding = pos 4

-- The copy of the label: libcrypto takes it over if the call succeeds, and else it is freed here.
abbrev pub labelled : ℕ → Bytes → Option ℕ → Go (Unit {0})
labelled ctx label none = fail (refused malloc_failed)
labelled ctx label (some buf) = do
  r ←
      call "EVP_PKEY_CTX_set0_rsa_oaep_label"
        (ptr ctx ∷ bytes label ∷ num (c_int (length label)) ∷ [])
  if is_nonpos r.rc
      then (free_now buf >> new_error "EVP_PKEY_CTX_set0_rsa_oaep_label")
      else hand_over buf

unfoldable pub apply_label : ℕ → Bytes → Go (Unit {0})
apply_label ctx label =
    if length label == 0
    then pure tt
    else (acquire "malloc" (num (pos (length label)) ∷ []) >>= labelled ctx label)

unfoldable pub apply_oaep : ℕ → Option OaepOptions → Go (Unit {0})
apply_oaep ctx o = do
  let (hash, mgf1, label) = resolve o
  call_pos "EVP_PKEY_CTX_set_rsa_padding" (ptr ctx ∷ num rsa_pkcs1_oaep_padding ∷ [])
      "EVP_PKEY_CTX_set_rsa_padding(OAEP)"
  with_cstring hash do
    call_pos "EVP_PKEY_CTX_set_rsa_oaep_md_name" (ptr ctx ∷ str hash ∷ null ∷ [])
        (str_append "EVP_PKEY_CTX_set_rsa_oaep_md_name(" (str_append hash ")"))
    with_cstring mgf1 do
      call_pos "EVP_PKEY_CTX_set_rsa_mgf1_md_name" (ptr ctx ∷ str mgf1 ∷ null ∷ [])
          (str_append "EVP_PKEY_CTX_set_rsa_mgf1_md_name(" (str_append mgf1 ")"))
      apply_label ctx label

-- `k.requireRSA(op)`
abbrev pub require_rsa : Option Key → Go (Unit {0})
require_rsa k = refuse_if (not (str_eq (key_type k) "RSA")) not_rsa_key

-- `clearErrors()` and the context of an operation on the key, with its `defer`.
unfoldable pub key_operation {ℓ} : {A : Type ℓ} → Option Key → Pkey → (ℕ → Go A) → Go A
key_operation k p body = do
  clear_errors
  using "EVP_PKEY_CTX_new_from_pkey" (context_ptr (some (key_context k)) ∷ ptr p.addr ∷ null ∷ [])
      "EVP_PKEY_CTX_new_from_pkey" "EVP_PKEY_CTX_free" body

-- The two calls of the size discovery, each with its check: `step f op` makes the call, and `empty` is
-- what a length of 0 means.
unfoldable pub sized : (Arg → Bool → Go Reply) → Go Bytes → Go Bytes
sized step empty = do
  r ← step null true
  if r.len == 0 then empty else (step (num (pos r.len)) false >>= slice_to r.len)

-- `op` of the first call ends in "(size)".
abbrev pub size_op : String → Bool → String
size_op f first = if first then str_append f "(size)" else f

abbrev pub reporting : String → List Arg → List Arg → Arg → Bool → Go Reply
reporting f before after room first = call_pos f (before ++ room ∷ after) (size_op f first)

-- The check of a decryption: every failure is ErrVerification, and the error queue is emptied.
abbrev pub uniformly : String → List Arg → List Arg → Arg → Bool → Go Reply
uniformly f before after room first = do
  r ← call f (before ++ room ∷ after)
  if is_nonpos r.rc then (clear_errors >> fail verification) else pure r

-- The check of EncryptPKCS1v15, which empties the queue and then reads it.
abbrev pub after_clearing : String → List Arg → List Arg → Arg → Bool → Go Reply
after_clearing f before after room first = do
  r ← call f (before ++ room ∷ after)
  if is_nonpos r.rc then (clear_errors >> new_error (size_op f first)) else pure r

unfoldable pub encrypt_oaep : Option Key → Bytes → Option OaepOptions → Go Bytes
encrypt_oaep k plaintext opts = when_open (pkey_of k) λ p. do
  require_rsa k
  key_operation k p λ ctx. do
    call_pos "EVP_PKEY_encrypt_init" (ptr ctx ∷ []) "EVP_PKEY_encrypt_init"
    apply_oaep ctx opts
    sized (reporting "EVP_PKEY_encrypt" (ptr ctx ∷ []) (bytes plaintext ∷ []))
        (new_error "EVP_PKEY_encrypt reported a zero-length ciphertext")

unfoldable pub decrypt_oaep : Option Key → Bytes → Option OaepOptions → Go Bytes
decrypt_oaep k ciphertext opts = when_open (pkey_of k) λ p. do
  require_rsa k
  if length ciphertext == 0
      then fail verification
      else key_operation k p λ ctx. do
        call_pos "EVP_PKEY_decrypt_init" (ptr ctx ∷ []) "EVP_PKEY_decrypt_init"
        apply_oaep ctx opts
        sized (uniformly "EVP_PKEY_decrypt" (ptr ctx ∷ []) (bytes ciphertext ∷ [])) (pure [])

abbrev pub crypt_op : Bool → String
crypt_op encrypt = if encrypt then "EncryptPKCS1v15" else "DecryptPKCS1v15"

abbrev pub crypt_init : Bool → String
crypt_init encrypt = if encrypt then "EVP_PKEY_encrypt_init" else "EVP_PKEY_decrypt_init"

abbrev pub crypt_step : Bool → ℕ → Bytes → Arg → Bool → Go Reply
crypt_step true ctx input = after_clearing "EVP_PKEY_encrypt" (ptr ctx ∷ []) (bytes input ∷ [])
crypt_step false ctx input = uniformly "EVP_PKEY_decrypt" (ptr ctx ∷ []) (bytes input ∷ [])

-- `k.rsaRawCrypt(in, encrypt)`
unfoldable pub rsa_raw_crypt : Option Key → Bytes → Bool → Go Bytes
rsa_raw_crypt k input encrypt = when_open (pkey_of k) λ p. do
  require_rsa k
  if not encrypt && (length input == 0)
      then fail verification
      else key_operation k p λ ctx. do
        call_pos (crypt_init encrypt) (ptr ctx ∷ []) (str_append (crypt_op encrypt) " init")
        call_pos "EVP_PKEY_CTX_set_rsa_padding" (ptr ctx ∷ num rsa_pkcs1_padding ∷ [])
            "EVP_PKEY_CTX_set_rsa_padding(PKCS1)"
        sized (crypt_step encrypt ctx input) (pure [])

-- `n - 2*h - 2`
abbrev pub oaep_room : ℕ → ℤ → ℤ
oaep_room n (pos h) =
    let used = 2 * h + 2 in if leb used n then pos (n - used) else negsuc (used - n - 1)
oaep_room n (negsuc h) = pos (n + 2 * h)

abbrev pub unless_negative : ℤ → Go ℕ
unless_negative (pos n) = pure n
unless_negative (negsuc n) = fail (refused too_small_for_oaep)

-- `k.MaxOAEPPlaintext(opts)`
unfoldable pub max_oaep_plaintext : Option Key → Option OaepOptions → Go ℕ
max_oaep_plaintext k opts = when_open (pkey_of k) λ p. do
  require_rsa k
  h ← new_hash (some (key_context k)) (resolve opts).0
  deferred (closing h) (unless_negative (oaep_room (key_size k) h.size))

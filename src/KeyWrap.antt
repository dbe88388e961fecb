-- ===== src/KeyWrap.antt =====
-- AES key wrap, of ossl/cipher_sym.go.
pub mod Balance
pub mod Uniform
pub mod Tests
use ossl_go.Prelude.{
  ℕ, ◌+◌, ◌%◌, Bytes, Bool, true, false, not, ◌&&◌, ◌||◌, String, str_append, List, [], ◌∷◌, Option,
  none, some, ltb, ◌==◌, if◌then◌else◌, length,
}
use ossl_go.Errors.{
  Result, ok, err, closed, verification, refused, kek_length, nothing_to_wrap, wrap_length,
}
use ossl_go.Cgo.{
  Go, Arg, num, bytes, str, ptr, null, Reply, pure, fail, lift, ◌>>=◌, ◌>>◌, attempt, call,
  call_one, acquire_or, release, using, with_cstring, clear_errors, refuse_if,
}
use ossl_go.Prelude.Int.{pos}
use ossl_go.Context.{Context, context_ptr}
use ossl_go.Cipher.{
  first_byte, update_part, final_part, init_fn, update_fn, final_fn, or_verification,
  max_block_length,
}

pub record KeyWrap : Type 0 where
  pub cipher : ℕ
  pub kek : Bytes
  pub name : String
  pub padded : Bool
  pub is_closed : Bool

-- The `switch` on the length of the KEK.
abbrev pub wrap_name : ℕ → Bool → Result String
wrap_name n with_padding =
    let suffix = if with_padding then "-PAD" else "" in
    if n == 16
    then ok (str_append "AES-128-WRAP" suffix)
    else if n == 24
    then ok (str_append "AES-192-WRAP" suffix)
    else if n == 32
    then ok (str_append "AES-256-WRAP" suffix)
    else err (refused kek_length)

unfoldable pub new_key_wrap : Option Context → Bytes → Bool → Go KeyWrap
new_key_wrap none kek with_padding = fail closed
new_key_wrap (some c) kek with_padding = do
  name ← lift (wrap_name (length kek) with_padding)
  clear_errors
  with_cstring name do
    ci ←
        acquire_or "EVP_CIPHER_fetch" (context_ptr (some c) ∷ str name ∷ null ∷ [])
          (str_append "EVP_CIPHER_fetch(" (str_append name ")"))
    pure (record { cipher = ci; kek = kek; name = name; padded = with_padding; is_closed = false })

-- EVP_CIPHER_CTX_FLAG_WRAP_ALLOW of <openssl/evp.h>
abbrev pub flag_wrap_allow : ℕ
flag_wrap_allow = 1

-- `w.run(in, wrap)`
unfoldable pub run_wrap : KeyWrap → Bytes → Bool → Go Bytes
run_wrap w xs is_wrap = do
  clear_errors
  using "EVP_CIPHER_CTX_new" [] "EVP_CIPHER_CTX_new" "EVP_CIPHER_CTX_free" λ ctx. do
    call "EVP_CIPHER_CTX_set_flags" (ptr ctx ∷ num (pos flag_wrap_allow) ∷ [])
    first_byte w.kek
    call_one (init_fn is_wrap) (ptr ctx ∷ ptr w.cipher ∷ bytes w.kek ∷ null ∷ null ∷ [])
        "key wrap init"
    first_byte xs
    buf ←
        update_part (update_fn is_wrap) ctx xs (length xs + max_block_length + 16) "key wrap update"
    final_part (final_fn is_wrap) ctx buf "key wrap final"

unfoldable pub wrap_key : Option KeyWrap → Bytes → Go Bytes
wrap_key none material = fail closed
wrap_key (some w) material = if w.is_closed then fail closed else (do
  refuse_if (length material == 0) nothing_to_wrap
  refuse_if (not w.padded && (ltb (length material) 16 || not (length material % 8 == 0)))
      wrap_length
  run_wrap w material true)

unfoldable pub unwrap_key : Option KeyWrap → Bytes → Go Bytes
unwrap_key none wrapped = fail closed
unwrap_key (some w) wrapped =
    if w.is_closed
    then fail closed
    else if ltb (length wrapped) 16 || not (length wrapped % 8 == 0)
    then fail verification
    else (do r ← attempt (run_wrap w wrapped false); or_verification r)

-- `w.Close()` of a wrapper that is not nil, as the wrapper that it leaves.
unfoldable pub close_key_wrap : KeyWrap → Go KeyWrap
close_key_wrap w world = if w.is_closed then (ok w, world) else (
  ok (record w { cipher = 0; kek = []; is_closed = true }),
  release "EVP_CIPHER_free" w.cipher world,
)

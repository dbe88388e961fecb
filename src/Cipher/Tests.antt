-- ===== src/Cipher/Tests.antt =====
-- Tests of the ciphers, and the theorems at concrete inputs.
use ossl_go.Prelude.{◌≡◌, refl, Bytes, [], ◌∷◌, some, false}
use ossl_go.Prelude.Int.{pos, negsuc, c_int}
use ossl_go.Errors.{ok, err, verification}
use ossl_go.Cgo.{
  pure, fail, abort, lift, ◌>>=◌, call, call_one, acquire_or, acquire, using, deferred, release,
  clear_errors, attempt, new_error,
}
use ossl_go.Cgo.Balance.{Balanced}
use ossl_go.Padding.{x923, remove_padding, apply_padding}
use ossl_go.Context.{default}
use ossl_go.Samples.{fresh, block_world}
use ossl_go.Cipher.{
  Cipher, with_padding, encrypt, decrypt, run, set_cipher_padding, update_part, final_part,
  new_cipher, close_cipher,
}
use ossl_go.Cipher.Balance.{encrypt-decrypt-Balanced, new_cipher-close-Balanced}
use ossl_go.Cipher.Uniform.{decrypt_uniform}

abbrev small : Cipher
small = record {
  cipher = 50;
  key = 1 ∷ 2 ∷ [];
  name = "SMALL-CBC";
  iv_len = pos 2;
  block_size = 2;
  padding = x923;
  stream = false;
  is_closed = false;
}

abbrev iv : Bytes
iv = 3 ∷ 4 ∷ []

-- 2^32 + 16 bytes are 16 to a C int, and 2^31 bytes a negative number
wraps : c_int 4294967312 ≡ pos 16
wraps = refl

negative : c_int 2147483648 ≡ negsuc 2147483647
negative = refl

encrypts : (encrypt (some small) [] iv (8 ∷ []) block_world).0 ≡ ok (7 ∷ 1 ∷ [])
unfolding encrypt run lift pure fail abort ◌>>=◌ call call_one acquire_or acquire using deferred
    release clear_errors set_cipher_padding update_part final_part new_error apply_padding
encrypts = refl

decrypts : (decrypt (some small) [] iv (8 ∷ 9 ∷ []) block_world).0 ≡ ok (7 ∷ [])
unfolding decrypt run lift pure fail abort ◌>>=◌ call call_one acquire_or acquire using deferred
    release clear_errors set_cipher_padding update_part final_part new_error attempt remove_padding
decrypts = refl

rejects : (decrypt (some small) [] iv (8 ∷ 9 ∷ []) fresh).0 ≡ err verification
unfolding decrypt run lift pure fail abort ◌>>=◌ call call_one acquire_or acquire using deferred
    release clear_errors set_cipher_padding update_part final_part new_error attempt remove_padding
rejects = refl

decrypt_uniform_example : verification ≡ verification
decrypt_uniform_example =
    decrypt_uniform small [] iv (8 ∷ 9 ∷ []) fresh verification refl refl rejects

encrypt-decrypt-Balanced_example :
    Balanced (encrypt (some small) [] iv (8 ∷ 9 ∷ []))
    × Balanced (decrypt (some small) [] iv (8 ∷ 9 ∷ []))
encrypt-decrypt-Balanced_example = encrypt-decrypt-Balanced (some small) [] iv (8 ∷ 9 ∷ [])

new_cipher-close-Balanced_example :
    Balanced (
      new_cipher (some default) "AES-128-CBC" (1 ∷ 2 ∷ []) (with_padding x923 ∷ [])
      >>= close_cipher)
new_cipher-close-Balanced_example =
    new_cipher-close-Balanced (some default) "AES-128-CBC" (1 ∷ 2 ∷ []) (with_padding x923 ∷ [])

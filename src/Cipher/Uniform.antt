-- ===== src/Cipher/Uniform.antt =====
-- Decryption has one error.
use ossl_go.Prelude.{ℕ, ◌≡◌, refl, ap, ◌∙◌, Bytes, false, not, ◌&&◌, ◌%◌, ◌==◌, some, length, arith}
use ossl_go.Prelude.Int.{pos, eq_ℕ}
use ossl_go.Errors.{Result, Error, ok, err, panic, verification}
use ossl_go.Cgo.{World}
use ossl_go.Cgo.Fails.{
  Fails, Fails-pure, Fails-fail, Fails-abort, Fails-lift, Fails-when, Fails-attempt, Fails-bind,
  Fails-clear_errors, Fails-not_refused,
}
use ossl_go.Padding.Remove.{remove_padding_error}
use ossl_go.Cipher.{Cipher, or_verification, unpad_output, decrypt}

abbrev pub IsVerification : Error → Type 0
IsVerification e = e ≡ verification

pub or_verification-Fails : (r : Result Bytes) → Fails IsVerification (or_verification r)
or_verification-Fails (ok out) = Fails-pure out
or_verification-Fails (err e) = Fails-bind _ _ Fails-clear_errors λ _. Fails-fail verification refl
or_verification-Fails (panic s) = Fails-abort s

unpad_output_error :
    (x : Cipher) (xs : Bytes) (e : Error) → unpad_output x xs ≡ err e → e ≡ verification
unpad_output_error x xs e h = ground (arith, remove_padding_error x.padding xs x.block_size e, h)

same_length : (n : ℕ) → not (n == n) ≡ false
same_length n = ground arith

decrypt-Fails :
    (x : Cipher) (dst iv ciphertext : Bytes)
    → x.is_closed ≡ false
    → x.iv_len ≡ pos (length iv)
    → Fails IsVerification (decrypt (some x) dst iv ciphertext)
unfolding decrypt
decrypt-Fails x dst iv ciphertext opened fits =
    Fails-when x.is_closed _ _ (λ c. absurd (cc (c, opened)))
      λ _.
        Fails-bind _ _
          (Fails-not_refused _ _
            (ap (λ z. not (eq_ℕ z (length iv))) fits ∙ same_length (length iv)))
          λ _.
            Fails-when (not x.stream && not (length ciphertext % x.block_size == 0)) _ _
              (λ _. Fails-fail verification refl)
              λ _. Fails-bind _ _ (Fails-attempt _) λ r.
                Fails-bind _ _ (or_verification-Fails r) λ padded.
                  Fails-bind _ _ (Fails-lift _ (unpad_output_error x padded)) λ out. Fails-pure _

-- Decryption tells a caller no more than that it failed: with an open cipher and an IV of the right
-- length, `decrypt` returns no error but ErrVerification, whether the length was wrong, libcrypto
-- refused, or the padding was bad.
pub decrypt_uniform :
    (x : Cipher) (dst iv ciphertext : Bytes) (w : World) (e : Error)
    → x.is_closed ≡ false
    → x.iv_len ≡ pos (length iv)
    → (decrypt (some x) dst iv ciphertext w).0 ≡ err e
    → e ≡ verification
decrypt_uniform x dst iv ciphertext w e opened fits h =
    (decrypt-Fails x dst iv ciphertext opened fits).at w e h

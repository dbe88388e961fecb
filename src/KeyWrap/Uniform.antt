-- ===== src/KeyWrap/Uniform.antt =====
-- Unwrapping has one error.
use ossl_go.Prelude.{◌≡◌, refl, Bytes, false, some, ltb, ◌||◌, length, not, ◌%◌, ◌==◌}
use ossl_go.Errors.{Error, err, verification}
use ossl_go.Cgo.{World}
use ossl_go.Cgo.Fails.{Fails, Fails-fail, Fails-when, Fails-attempt, Fails-bind}
use ossl_go.Cipher.Uniform.{IsVerification, or_verification-Fails}
use ossl_go.KeyWrap.{KeyWrap, unwrap_key}

unwrap_key-Fails :
    (w : KeyWrap) (wrapped : Bytes)
    → w.is_closed ≡ false
    → Fails IsVerification (unwrap_key (some w) wrapped)
unfolding unwrap_key
unwrap_key-Fails w wrapped opened =
    Fails-when w.is_closed _ _ (λ c. absurd (cc (c, opened)))
      λ _.
        Fails-when (ltb (length wrapped) 16 || not (length wrapped % 8 == 0)) _ _
          (λ _. Fails-fail verification refl)
          λ _. Fails-bind _ _ (Fails-attempt _) or_verification-Fails

-- Unwrapping with an open wrapper returns no error but ErrVerification, for input of any length and
-- whatever libcrypto answers.
pub unwrap_key_uniform :
    (w : KeyWrap) (wrapped : Bytes) (world : World) (e : Error)
    → w.is_closed ≡ false
    → (unwrap_key (some w) wrapped world).0 ≡ err e
    → e ≡ verification
unwrap_key_uniform w wrapped world e opened h = (unwrap_key-Fails w wrapped opened).at world e h

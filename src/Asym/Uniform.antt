-- ===== src/Asym/Uniform.antt =====
-- What the error of a decryption may tell of the ciphertext (ossl/asym.go).
use ossl_go.Prelude.{
  ℕ, ◌≡◌, ◌⊎◌, refl, Bytes, Bool, true, false, String, List, [], ◌∷◌, Option, none, some, length,
  ltb, ◌==◌, if◌then◌else◌,
}
use ossl_go.Prelude.Int.{is_nonpos}
use ossl_go.Errors.{Error, err, verification}
use ossl_go.Cgo.{World, Go, Arg, Reply, ptr, bytes, pure, fail, written}
use ossl_go.Cgo.Fails.{
  Fails, Fails-pure, Fails-fail, Fails-abort, Fails-when, Fails-bind, Fails-clear_errors,
  Fails-call,
}
use ossl_go.Cgo.Blind.{Blind, Blind-Fails, Blind-same, Blind-bind, Blind-using}
use ossl_go.Cipher.Uniform.{IsVerification}
use ossl_go.Key.{Key, Pkey, pkey_of, when_open}
use ossl_go.Sign.{slice_to}
use ossl_go.Asym.{OaepOptions, key_operation, sized, uniformly, decrypt_oaep, rsa_raw_crypt}

uniformly-Fails :
    (f : String) (before after : List Arg) (room : Arg) (first : Bool)
    → Fails IsVerification (uniformly f before after room first)
uniformly-Fails f before after room first = Fails-bind _ _ (Fails-call _ _) λ r.
    Fails-when (is_nonpos r.rc) _ _
      (λ h. Fails-bind _ _ Fails-clear_errors λ u. Fails-fail verification refl) λ h. Fails-pure r

slice_to-Fails : (size : ℕ) (r : Reply) → Fails IsVerification (slice_to size r)
slice_to-Fails size r =
    Fails-when (ltb size r.len) _ (pure (written size r.out r.len))
      (λ h. Fails-abort "slice bounds out of range") λ h. Fails-pure _

sized-Fails :
    (f : String) (before after : List Arg)
    → Fails IsVerification (sized (uniformly f before after) (pure []))
unfolding sized
sized-Fails f before after = Fails-bind _ _ (uniformly-Fails f before after _ true) λ r.
    Fails-when (r.len == 0) _ _ (λ h. Fails-pure [])
      λ h. Fails-bind _ _ (uniformly-Fails f before after _ false) λ q. slice_to-Fails _ q

key_operation-Blind :
    (k : Option Key) (p : Pkey) (m n : ℕ → Go Bytes)
    → ((ctx : ℕ) → Blind IsVerification (m ctx) (n ctx))
    → Blind IsVerification (key_operation k p m) (key_operation k p n)
unfolding key_operation
key_operation-Blind k p m n b = Blind-bind _ _ _ λ u. Blind-using _ _ _ _ m n b

when_open-Blind :
    (o : Option Pkey) (m n : Pkey → Go Bytes)
    → ((p : Pkey) → Blind IsVerification (m p) (n p))
    → Blind IsVerification (when_open o m) (when_open o n)
when_open-Blind none m n b = Blind-same _
when_open-Blind (some p) m n b = b p

-- an empty ciphertext is a rejection
unless_empty-Blind :
    (b b' : Bool) (m n : Go Bytes)
    → b' ≡ false
    → Blind IsVerification m n
    → Blind IsVerification
        (if b then fail verification else m)
        (if b' then fail verification else n)
unless_empty-Blind true b' m n e q = Blind-Fails _ _ (Fails-fail verification refl)
unless_empty-Blind false true m n e q = absurd (cc e)
unless_empty-Blind false false m n e q = q

decrypt_oaep-Blind :
    (k : Option Key) (c d : Bytes) (opts : Option OaepOptions)
    → (length d == 0) ≡ false
    → Blind IsVerification (decrypt_oaep k c opts) (decrypt_oaep k d opts)
unfolding decrypt_oaep
decrypt_oaep-Blind k c d opts e = when_open-Blind (pkey_of k) _ _ λ p. Blind-bind _ _ _ λ u.
    unless_empty-Blind (length c == 0) _ _ _ e (
      key_operation-Blind k p _ _ λ ctx. Blind-bind _ _ _ λ v.
        Blind-bind _ _ _
          λ x. Blind-Fails _ _ (sized-Fails "EVP_PKEY_decrypt" (ptr ctx ∷ []) (bytes c ∷ [])))

-- RSA decryption under OAEP tells a caller nothing of the ciphertext by its error: the error is
-- ErrVerification, or it is one that any other ciphertext that is not empty would have met in the
-- same world, with the same calls and the same state after it.
pub decrypt_oaep_blind :
    (k : Option Key) (c d : Bytes) (opts : Option OaepOptions) (w : World) (e : Error)
    → (length d == 0) ≡ false
    → (decrypt_oaep k c opts w).0 ≡ err e
    → (e ≡ verification) ⊎ (decrypt_oaep k c opts w ≡ decrypt_oaep k d opts w)
decrypt_oaep_blind k c d opts w e n h = (decrypt_oaep-Blind k c d opts n).at w e h

decrypt_raw-Blind :
    (k : Option Key) (c d : Bytes)
    → (length d == 0) ≡ false
    → Blind IsVerification (rsa_raw_crypt k c false) (rsa_raw_crypt k d false)
unfolding rsa_raw_crypt
decrypt_raw-Blind k c d e = when_open-Blind (pkey_of k) _ _ λ p. Blind-bind _ _ _ λ u.
    unless_empty-Blind (length c == 0) _ _ _ e (
      key_operation-Blind k p _ _ λ ctx. Blind-bind _ _ _ λ v.
        Blind-bind _ _ _
          λ x. Blind-Fails _ _ (sized-Fails "EVP_PKEY_decrypt" (ptr ctx ∷ []) (bytes c ∷ [])))

-- So does decryption of PKCS #1 version 1.5.
pub decrypt_raw_blind :
    (k : Option Key) (c d : Bytes) (w : World) (e : Error)
    → (length d == 0) ≡ false
    → (rsa_raw_crypt k c false w).0 ≡ err e
    → (e ≡ verification) ⊎ (rsa_raw_crypt k c false w ≡ rsa_raw_crypt k d false w)
decrypt_raw_blind k c d w e n h = (decrypt_raw-Blind k c d n).at w e h

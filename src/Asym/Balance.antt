-- ===== src/Asym/Balance.antt =====
-- The operations of ossl/asym.go release what they acquire; the copy of an OAEP label is given to
-- libcrypto or freed, and never both.
use ossl_go.Prelude.{ℕ, Bytes, Bool, true, false, Option, some, length, ◌==◌}
use ossl_go.Cgo.{Go, Arg, Reply}
use ossl_go.Cgo.Balance.{
  Balanced, Balanced-pure, Balanced-fail, Balanced-bind, Balanced-if, Balanced-clear_errors,
  Balanced-using, Balanced-new_error, balance_rules,
}
use ossl_go.Cgo.Drops.{
  Drops, Drops-free_now, Drops-hand_over, Drops-if, Drops-then, Drops-call, Balanced-acquire,
}
use ossl_go.Key.{Key, Pkey, pkey_of}
use ossl_go.Key.Balance.{Balanced-when_open}
use ossl_go.Asym.{
  OaepOptions, labelled, apply_label, apply_oaep, key_operation, sized, crypt_step, encrypt_oaep,
  decrypt_oaep, rsa_raw_crypt,
}
use ossl_go.Sign.{slice_to}

labelled-Drops : (ctx : ℕ) (label : Bytes) (buf : ℕ) → Drops buf (labelled ctx label (some buf))
labelled-Drops ctx label buf = Drops-call buf _ _ _ λ r.
    Drops-if buf _ _ _ (Drops-then buf _ _ (Drops-free_now buf) λ u. Balanced-new_error _)
      (Drops-hand_over buf)

apply_label-Balanced : (ctx : ℕ) (label : Bytes) → Balanced (apply_label ctx label)
unfolding apply_label
apply_label-Balanced ctx label =
    Balanced-if (length label == 0) _ _ (Balanced-pure tt)
      (Balanced-acquire _ _ (labelled ctx label) (Balanced-fail _) (labelled-Drops ctx label))

apply_oaep-Balanced : (ctx : ℕ) (o : Option OaepOptions) → Balanced (apply_oaep ctx o)
unfolding apply_oaep
apply_oaep-Balanced ctx o = search (balance_rules, apply_label-Balanced) depth 14

pub key_operation-Balanced {ℓ} :
    {A : Type ℓ} (k : Option Key) (p : Pkey) (body : ℕ → Go A)
    → ((ctx : ℕ) → Balanced (body ctx))
    → Balanced (key_operation k p body)
unfolding key_operation
key_operation-Balanced k p body b =
    Balanced-bind _ _ Balanced-clear_errors λ u. Balanced-using _ _ _ _ _ b

slice_to-Balanced : (size : ℕ) (r : Reply) → Balanced (slice_to size r)
slice_to-Balanced size r = search balance_rules

pub sized-Balanced :
    (step : Arg → Bool → Go Reply) (empty : Go Bytes)
    → ((room : Arg) (first : Bool) → Balanced (step room first))
    → Balanced empty
    → Balanced (sized step empty)
unfolding sized
sized-Balanced step empty s e =
    Balanced-bind _ _ (s _ _)
      λ r. Balanced-if (r.len == 0) _ _ e (Balanced-bind _ _ (s _ _) λ q. slice_to-Balanced _ q)

crypt_step-Balanced :
    (encrypt : Bool) (ctx : ℕ) (input : Bytes) (room : Arg) (first : Bool)
    → Balanced (crypt_step encrypt ctx input room first)
crypt_step-Balanced true ctx input room first = search balance_rules depth 12
crypt_step-Balanced false ctx input room first = search balance_rules depth 12

ruleset operations = (balance_rules, apply_oaep-Balanced)

-- RSA encryption under OAEP releases just what it acquired, on every path: the copy of the label is
-- freed where libcrypto did not take it over, and only there.
pub encrypt_oaep-Balanced :
    (k : Option Key) (plaintext : Bytes) (opts : Option OaepOptions)
    → Balanced (encrypt_oaep k plaintext opts)
unfolding encrypt_oaep
encrypt_oaep-Balanced k plaintext opts =
    Balanced-when_open (pkey_of k) _
      λ p. search (operations, key_operation-Balanced, sized-Balanced) depth 14

-- So does decryption under OAEP.
pub decrypt_oaep-Balanced :
    (k : Option Key) (ciphertext : Bytes) (opts : Option OaepOptions)
    → Balanced (decrypt_oaep k ciphertext opts)
unfolding decrypt_oaep
decrypt_oaep-Balanced k ciphertext opts =
    Balanced-when_open (pkey_of k) _
      λ p. search (operations, key_operation-Balanced, sized-Balanced) depth 16

-- So do encryption and decryption of PKCS #1 version 1.5.
pub rsa_raw_crypt-Balanced :
    (k : Option Key) (input : Bytes) (encrypt : Bool) → Balanced (rsa_raw_crypt k input encrypt)
unfolding rsa_raw_crypt
rsa_raw_crypt-Balanced k input encrypt =
    Balanced-when_open (pkey_of k) _
      λ p. search (operations, key_operation-Balanced, sized-Balanced, crypt_step-Balanced) depth 14

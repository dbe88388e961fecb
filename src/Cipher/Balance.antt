-- ===== src/Cipher/Balance.antt =====
-- Encryption and decryption release their contexts, and a cipher is released once.
use ossl_go.Prelude.{
  ℕ, ◌≡◌, refl, Bytes, Bool, false, String, List, [], ◌∷◌, Option, none, some, arith,
}
use ossl_go.Errors.{Result, ok, err, panic}
use ossl_go.Cgo.{World, Go, ◌>>=◌, owning, release}
use ossl_go.Cgo.Balance.{
  Balanced, Balanced-pure, Balanced-fail, Balanced-abort, Balanced-clear_errors, balance_rules,
}
use ossl_go.Cgo.Owns.{Owns, Owns-fail, Owns-bind, Owns-with_cstring, Owns-make, Balanced-close}
use ossl_go.Cgo.Returns.{Ensures, Ensures-fail, Ensures-pure, Ensures-bind, Ensures-with_cstring}
use ossl_go.Context.{Context}
use ossl_go.Cipher.{
  Cipher, CipherOption, first_byte, Buffer, update_part, cut, final_part, set_cipher_padding, run,
  or_verification, encrypt, decrypt, is_aead_cipher, make_cipher, new_cipher, close_cipher,
}

pub first_byte-Balanced : (b : Bytes) → Balanced (first_byte b)
first_byte-Balanced [] = Balanced-abort _
first_byte-Balanced (b ∷ bs) = Balanced-pure tt

pub update_part-Balanced :
    (f : String) (ctx : ℕ) (xs : Bytes) (size : ℕ) (op : String)
    → Balanced (update_part f ctx xs size op)
unfolding update_part
update_part-Balanced f ctx xs size op = search balance_rules depth 12

pub cut-Balanced : (total : ℕ) (buf : Bytes) → Balanced (cut total buf)
cut-Balanced total buf = search balance_rules

pub final_part-Balanced :
    (f : String) (ctx : ℕ) (b : Buffer) (op : String) → Balanced (final_part f ctx b op)
unfolding final_part
final_part-Balanced f ctx (total, buf) op = search (balance_rules, cut-Balanced) depth 12

set_cipher_padding-Balanced : (ctx : ℕ) (x : Cipher) → Balanced (set_cipher_padding ctx x)
unfolding set_cipher_padding
set_cipher_padding-Balanced ctx x = search balance_rules depth 12

run-Balanced : (x : Cipher) (iv xs : Bytes) (e : Bool) → Balanced (run x iv xs e)
unfolding run
run-Balanced x iv xs e =
    search
      (
        balance_rules, first_byte-Balanced, set_cipher_padding-Balanced, update_part-Balanced,
        final_part-Balanced,
      )
      depth 16

pub or_verification-Balanced : (r : Result Bytes) → Balanced (or_verification r)
or_verification-Balanced (ok out) = Balanced-pure out
or_verification-Balanced (err e) = search balance_rules
or_verification-Balanced (panic s) = Balanced-abort s

encrypt-Balanced :
    (x : Option Cipher) (dst iv plaintext : Bytes) → Balanced (encrypt x dst iv plaintext)
unfolding encrypt
encrypt-Balanced none dst iv plaintext = Balanced-fail _
encrypt-Balanced (some x) dst iv plaintext = search (balance_rules, run-Balanced) depth 14

decrypt-Balanced :
    (x : Option Cipher) (dst iv ciphertext : Bytes) → Balanced (decrypt x dst iv ciphertext)
unfolding decrypt
decrypt-Balanced none dst iv ciphertext = Balanced-fail _
decrypt-Balanced (some x) dst iv ciphertext =
    search (balance_rules, run-Balanced, or_verification-Balanced) depth 16

-- Encryption and decryption hold, when they return, the references that they held before and no other,
-- and release none that was not held, on every path.
pub encrypt-decrypt-Balanced :
    (x : Option Cipher) (dst iv input : Bytes)
    → Balanced (encrypt x dst iv input) × Balanced (decrypt x dst iv input)
encrypt-decrypt-Balanced x dst iv input =
    (encrypt-Balanced x dst iv input, decrypt-Balanced x dst iv input)

pub is_aead_cipher-Balanced : (ci mode : ℕ) → Balanced (is_aead_cipher ci mode)
unfolding is_aead_cipher
is_aead_cipher-Balanced ci mode = search balance_rules depth 12

make_cipher-Balanced :
    (ci : ℕ) (name : String) (key : Bytes) (opts : List CipherOption)
    → Balanced (make_cipher ci name key opts)
unfolding make_cipher
make_cipher-Balanced ci name key opts = search (balance_rules, is_aead_cipher-Balanced) depth 20

-- An open cipher over the EVP_CIPHER at `ci`.
abbrev Made : ℕ → Cipher → Type 0
Made ci x = (x.cipher ≡ ci) × (x.is_closed ≡ false)

make_cipher-Made :
    (ci : ℕ) (name : String) (key : Bytes) (opts : List CipherOption)
    → Ensures (Made ci) (make_cipher ci name key opts)
unfolding make_cipher
make_cipher-Made ci name key opts = Ensures-bind _ _ λ _. Ensures-bind _ _ λ _.
    Ensures-bind _ _ λ _. Ensures-bind _ _ λ _. Ensures-bind _ _ λ _. Ensures-bind _ _ λ _.
      Ensures-bind _ _ λ _. Ensures-bind _ _ λ _. Ensures-bind _ _ λ _. Ensures-pure _ (refl, refl)

new_cipher-Owns :
    (c : Option Context) (name : String) (key : Bytes) (opts : List CipherOption)
    → Owns (λ x. x.cipher) (new_cipher c name key opts)
unfolding new_cipher
new_cipher-Owns none name key opts = Owns-fail _
new_cipher-Owns (some c) name key opts = Owns-bind _ _ Balanced-clear_errors λ _.
    Owns-with_cstring name _ (
      Owns-make _ _ _ "EVP_CIPHER_free" _ (λ ci. make_cipher-Balanced ci name key opts)
        λ ci. record { at = λ w x h. ((make_cipher-Made ci name key opts).at w x h).0 })

pub owning-Ensures {ℓ} :
    {A : Type ℓ} {Q : A → Type 0} (free : String) (a : ℕ) (m : Go A)
    → Ensures Q m
    → Ensures Q (owning free a m)
unfolding owning
owning-Ensures free a m q = record { at = q.at }

new_cipher-open :
    (c : Option Context) (name : String) (key : Bytes) (opts : List CipherOption)
    → Ensures (λ x. x.is_closed ≡ false) (new_cipher c name key opts)
unfolding new_cipher
new_cipher-open none name key opts = Ensures-fail _
new_cipher-open (some c) name key opts = Ensures-bind _ _ λ _. Ensures-with_cstring name _ (
    Ensures-bind _ _ λ ci.
      owning-Ensures _ ci _
        (record { at = λ w x h. ((make_cipher-Made ci name key opts).at w x h).1 }))

closes :
    (x : Cipher)
    → x.is_closed ≡ false
    → (w : World) → (close_cipher x w).1 ≡ release "EVP_CIPHER_free" x.cipher w
unfolding close_cipher
closes x h w = ground (arith, h)

-- A cipher that is made and closed leaves nothing behind: whatever libcrypto answers, every error of
-- `new_cipher` gives the EVP_CIPHER back, and `close_cipher` gives back the one that a cipher keeps.
pub new_cipher-close-Balanced :
    (c : Option Context) (name : String) (key : Bytes) (opts : List CipherOption)
    → Balanced (new_cipher c name key opts >>= close_cipher)
new_cipher-close-Balanced c name key opts =
    Balanced-close "EVP_CIPHER_free" (new_cipher c name key opts) close_cipher
      (new_cipher-Owns c name key opts)
      λ w x h v. closes x ((new_cipher-open c name key opts).at w x h) v

-- ===== src/Kem/Balance.antt =====
-- Encapsulation and decapsulation release what they acquire.
use ossl_go.Prelude.{ℕ, Bytes, String, Option, length, ◌==◌}
use ossl_go.Cgo.{Reply}
use ossl_go.Cgo.Balance.{Balanced, Balanced-fail, Balanced-if, balance_rules}
use ossl_go.Key.{Key, pkey_of}
use ossl_go.Key.Balance.{Balanced-when_open}
use ossl_go.Asym.Balance.{key_operation-Balanced, sized-Balanced}
use ossl_go.Kem.{set_kem_op, both_to, encapsulate, decapsulate}

set_kem_op-Balanced : (ctx : ℕ) (t : String) → Balanced (set_kem_op ctx t)
unfolding set_kem_op
set_kem_op-Balanced ctx t = search balance_rules depth 12

both_to-Balanced : (n m : ℕ) (r : Reply) → Balanced (both_to n m r)
both_to-Balanced n m r = search balance_rules

-- Encapsulation releases just what it acquired, on every path.
pub encapsulate-Balanced : (k : Option Key) → Balanced (encapsulate k)
unfolding encapsulate
encapsulate-Balanced k = Balanced-when_open (pkey_of k) _ λ p.
    search (balance_rules, key_operation-Balanced, set_kem_op-Balanced, both_to-Balanced) depth 16

-- So does decapsulation.
pub decapsulate-Balanced :
    (k : Option Key) (ciphertext : Bytes) → Balanced (decapsulate k ciphertext)
unfolding decapsulate
decapsulate-Balanced k ciphertext = Balanced-when_open (pkey_of k) _ λ p.
    Balanced-if (length ciphertext == 0) _ _ (Balanced-fail _)
      (search (balance_rules, key_operation-Balanced, set_kem_op-Balanced, sized-Balanced) depth 16)

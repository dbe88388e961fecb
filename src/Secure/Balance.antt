-- ===== src/Secure/Balance.antt =====
-- A secure buffer is released once.
use ossl_go.Prelude.{arith, false, ◌∙◌, ℕ, ◌≡◌, refl, ◌≤◌, Option, none, some}
use ossl_go.Prelude.Int.{ℤ, pos, negsuc, is_nonpos, ltb_ℤ}
use ossl_go.Errors.{ok}
use ossl_go.Cgo.{World, Go, ◌>>=◌, make_or, release}
use ossl_go.Kdf.{max_output_length}
use ossl_go.Cgo.Balance.{Balanced, Balanced-clear_errors, Balanced-refuse_if, balance_rules}
use ossl_go.Cgo.Owns.{Owns, Owns-fail, Owns-bind, Owns-make_or, Balanced-close}
use ossl_go.Cgo.Returns.{
  Ensures, Ensures-fail, Ensures-pure, Ensures-bind, Ensures-bind_of, refuse_if-false,
}
use ossl_go.Cipher.Balance.{owning-Ensures}
use ossl_go.Secure.{
  SecureBuffer, secure_heap_initialized, secure_heap_used, on_secure_heap, new_secure_buffer,
  close_buffer,
}

secure_heap_initialized-Balanced : Balanced secure_heap_initialized
unfolding secure_heap_initialized
secure_heap_initialized-Balanced = search balance_rules

secure_heap_used-Balanced : Balanced secure_heap_used
unfolding secure_heap_used
secure_heap_used-Balanced = search (balance_rules, secure_heap_initialized-Balanced) depth 12

on_secure_heap-Balanced : (n : ℤ) (p : ℕ) → Balanced (on_secure_heap n p)
unfolding on_secure_heap
on_secure_heap-Balanced n p = search balance_rules depth 12

on_secure_heap-Ensures : (n : ℤ) (p : ℕ) → Ensures (λ b. b.at ≡ some p) (on_secure_heap n p)
unfolding on_secure_heap
on_secure_heap-Ensures n p = Ensures-bind _ _ λ _. Ensures-bind _ _ λ _. Ensures-pure _ refl

-- the address of an open buffer
abbrev buffer_addr : SecureBuffer → ℕ
buffer_addr b = elim b.at [ none ↦ 0 | some p ↦ p ]

new_secure_buffer-Owns : (n : ℤ) → Owns buffer_addr (new_secure_buffer n)
unfolding new_secure_buffer
new_secure_buffer-Owns n = Owns-bind _ _ (Balanced-refuse_if _ _) λ _.
    Owns-bind _ _ (Balanced-refuse_if _ _) λ _. Owns-bind _ _ secure_heap_initialized-Balanced λ up.
      Owns-bind _ _ (Balanced-refuse_if _ _) λ _. Owns-bind _ _ Balanced-clear_errors λ _.
        Owns-make_or _ _ _ _ (on_secure_heap n)
          (Owns-bind _ _ secure_heap_used-Balanced λ u. Owns-fail _) (on_secure_heap-Balanced n)
          λ p. record {
            at = λ w b h. let e = (on_secure_heap-Ensures n p).at w b h in ground (arith, e);
          }

-- The buffer is open, and `n` bytes long.
abbrev pub OpenOf : ℤ → SecureBuffer → Type 0
OpenOf n b = ((p : ℕ) × (b.at ≡ some p)) × (b.n ≡ n)

on_secure_heap-Open : (n : ℤ) (p : ℕ) → Ensures (OpenOf n) (on_secure_heap n p)
unfolding on_secure_heap
on_secure_heap-Open n p =
    Ensures-bind _ _ λ _. Ensures-bind _ _ λ _. Ensures-pure _ ((p, refl), refl)

made-Open :
    (n : ℤ) (missing : Go SecureBuffer) (o : Option ℕ)
    → Ensures (OpenOf n) missing
    → Ensures (OpenOf n) (make_or missing "ossl_secure_clear_free" (on_secure_heap n) o)
made-Open n missing none m = m
made-Open n missing (some p) m = owning-Ensures _ p _ (on_secure_heap-Open n p)

new_secure_buffer-Open : (n : ℤ) → Ensures (OpenOf n) (new_secure_buffer n)
unfolding new_secure_buffer
new_secure_buffer-Open n = Ensures-bind _ _ λ _. Ensures-bind _ _ λ _. Ensures-bind _ _ λ up.
    Ensures-bind _ _ λ _.
      Ensures-bind _ _
        λ _. Ensures-bind _ _ λ o. made-Open n _ o (Ensures-bind _ _ λ u. Ensures-fail _)

closes :
    (b : SecureBuffer) (p : ℕ)
    → b.at ≡ some p
    → (w : World) → (close_buffer b w).1 ≡ release "ossl_secure_clear_free" (buffer_addr b) w
unfolding close_buffer
closes b p e w = ground (arith, e)

-- A secure buffer that is made and closed leaves nothing behind: every error of `new_secure_buffer`
-- frees the allocation, one from outside the secure heap included, and `close_buffer` frees the
-- one that a buffer keeps.
pub new_secure_buffer-close-Balanced : (n : ℤ) → Balanced (new_secure_buffer n >>= close_buffer)
new_secure_buffer-close-Balanced n =
    Balanced-close "ossl_secure_clear_free" (new_secure_buffer n) close_buffer
      (new_secure_buffer-Owns n)
      λ w b h v. let o = ((new_secure_buffer-Open n).at w b h).0 in closes b o.0 o.1 v

-- the guards of the size
size_in :
    (n : ℤ)
    → is_nonpos n ≡ false
    → ltb_ℤ (pos max_output_length) n ≡ false
    → (m : ℕ) × (n ≡ pos m) × (1 ≤ m) × (m ≤ max_output_length)
size_in (pos m) h k = (m, refl, ground arith, ground arith)
size_in (negsuc m) h k = absurd (cc h)

sized :
    (n : ℤ)
    → Ensures (λ b. (m : ℕ) × (n ≡ pos m) × (1 ≤ m) × (m ≤ max_output_length)) (new_secure_buffer n)
unfolding new_secure_buffer
sized n = Ensures-bind_of _ _ λ w u low. Ensures-bind_of _ _ λ w' u' high. record {
  at = λ v b e. size_in n ((refuse_if-false _ _).at w u low) ((refuse_if-false _ _).at w' u' high);
}

-- A secure buffer has the size asked for, which is 1 byte at least and 64 MiB at most.
pub new_secure_buffer_size :
    (n : ℤ) (w : World) (b : SecureBuffer)
    → (new_secure_buffer n w).0 ≡ ok b
    → (m : ℕ) × (b.n ≡ pos m) × (n ≡ pos m) × (1 ≤ m) × (m ≤ max_output_length)
new_secure_buffer_size n w b h =
    let size = ((new_secure_buffer-Open n).at w b h).1 in
    let (m, e, low, high) = (sized n).at w b h in (m, size ∙ e, e, low, high)

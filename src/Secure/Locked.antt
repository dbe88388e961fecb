-- ===== src/Secure/Locked.antt =====
-- The memory of a secure buffer is of the secure heap.
use ossl_go.Prelude.{
  ℕ, ◌≡◌, refl, ◌≤◌, Bool, true, false, not, List, [], ◌∷◌, Option, none, some, subst,
}
use ossl_go.Prelude.Int.{ℤ, pos, eq_ℕ}
use ossl_go.Errors.{Result, Error, ok, err, panic, not_from_heap}
use ossl_go.Cgo.{
  World, Go, Arg, Call, Reply, ptr, pure, fail, ◌>>=◌, ◌>>◌, continue, call, owning, give_back,
  make_or, refuse_if,
}
use ossl_go.Cgo.Trace.{
  Asked, Asked-after, here, same, Later, Extends, Extends-acquire, Extends-clear_errors,
  Extends-refuse_if, extends_rules,
}
use ossl_go.Kdf.{max_output_length}
use ossl_go.Secure.{
  SecureBuffer, secure_heap_initialized, secure_heap_used, on_secure_heap, new_secure_buffer,
}
use ossl_go.Secure.Balance.{new_secure_buffer_size}

-- The call was on the memory of the buffer, and the answer was 1.
abbrev pub OnHeap : SecureBuffer → List Arg → Reply → Type 0
OnHeap b args r = (p : ℕ) × (b.at ≡ some p) × (args ≡ ptr p ∷ []) × (eq_ℕ r.rc 1 ≡ true)

abbrev Told : World → World → SecureBuffer → Type 0
Told w v b = Asked w.lib "CRYPTO_secure_allocated" (OnHeap b) w.trace v.trace

record Locks (m : Go SecureBuffer) : Type 0 where
  at : (w : World) (b : SecureBuffer) → (m w).0 ≡ ok b → Told w (m w).1 b

Locks-fail : (e : Error) → Locks (fail e)
unfolding fail
Locks-fail e = record { at = λ w b h. absurd (cc h) }

module _ {ℓ} {A : Type ℓ} where
  Told-after :
      (w : World) (r : Result A) (v : World) (f : A → Go SecureBuffer) (b : SecureBuffer)
      → Later w v
      → ((a : A) → Locks (f a))
      → (continue r f v).0 ≡ ok b
      → Told w (continue r f v).1 b
  Told-after w (ok a) v f b l k h = Asked-after l.trace (
      subst (λ lib. Asked lib "CRYPTO_secure_allocated" (OnHeap b) v.trace (f a v).1.trace) l.lib
        ((k a).at v b h))
  Told-after w (err e) v f b l k h = absurd (cc h)
  Told-after w (panic s) v f b l k h = absurd (cc h)

  Locks-bind :
      (m : Go A) (f : A → Go SecureBuffer) → Extends m → ((a : A) → Locks (f a)) → Locks (m >>= f)
  unfolding ◌>>=◌
  Locks-bind m f e k = record { at = λ w b h. Told-after w (m w).0 (m w).1 f b (e.at w) k h }

kept-Told :
    (p : ℕ) (w v : World) (r : Result SecureBuffer) (b : SecureBuffer)
    → (r ≡ ok b → Told w v b)
    → r ≡ ok b
    → Told w (give_back "ossl_secure_clear_free" p r v) b
kept-Told p w v (ok x) b k h = k h
kept-Told p w v (err e) b k h = absurd (cc h)
kept-Told p w v (panic s) b k h = absurd (cc h)

Locks-owning : (p : ℕ) (m : Go SecureBuffer) → Locks m → Locks (owning "ossl_secure_clear_free" p m)
unfolding owning
Locks-owning p m k = record { at = λ w b h. kept-Told p w (m w).1 (m w).0 b (k.at w b) h }

-- the end of `on_secure_heap`, once the answer is there
answered :
    (n : ℤ) (p : ℕ) (w v : World) (r : Reply) (y : Bool) (b : SecureBuffer)
    → ((x : SecureBuffer) → x.at ≡ some p → y ≡ true → Told w v x)
    → let m : Go SecureBuffer =
        refuse_if (not y) not_from_heap >> pure (record { at = some p; n = n }) in
      (m v).0 ≡ ok b → Told w (m v).1 b
unfolding pure fail ◌>>=◌
answered n p w v r true b k h =
    let e : record { at = some p; n = n } ≡ b = cc in
    subst (Told w v) e (k (record { at = some p; n = n }) refl refl)
answered n p w v r false b k h = absurd (cc h)

on_secure_heap-Locks : (n : ℤ) (p : ℕ) → Locks (on_secure_heap n p)
unfolding on_secure_heap call ◌>>=◌
on_secure_heap-Locks n p = record {
  at = λ w b h.
      let c : Call = record { fn = "CRYPTO_secure_allocated"; args = ptr p ∷ [] } in
      let r = w.lib w.trace c in
      answered n p w (call "CRYPTO_secure_allocated" (ptr p ∷ []) w).1 r (eq_ℕ r.rc 1) b
        (λ x e y. here (ptr p ∷ []) same (p, e, refl, y)) h;
}

made-Locks :
    (n : ℤ) (o : Option ℕ) (missing : Go SecureBuffer)
    → Locks missing
    → Locks (make_or missing "ossl_secure_clear_free" (on_secure_heap n) o)
made-Locks n none missing k = k
made-Locks n (some p) missing k = Locks-owning p _ (on_secure_heap-Locks n p)

secure_heap_initialized-Extends : Extends secure_heap_initialized
unfolding secure_heap_initialized
secure_heap_initialized-Extends = search extends_rules

secure_heap_used-Extends : Extends secure_heap_used
unfolding secure_heap_used
secure_heap_used-Extends = search (extends_rules, secure_heap_initialized-Extends) depth 12

new_secure_buffer-Locks : (n : ℤ) → Locks (new_secure_buffer n)
unfolding new_secure_buffer
new_secure_buffer-Locks n = Locks-bind _ _ (Extends-refuse_if _ _) λ u.
    Locks-bind _ _ (Extends-refuse_if _ _) λ u. Locks-bind _ _ secure_heap_initialized-Extends λ up.
      Locks-bind _ _ (Extends-refuse_if _ _) λ u. Locks-bind _ _ Extends-clear_errors λ u.
        Locks-bind _ _ (Extends-acquire _ _)
          λ o. made-Locks n o _ (Locks-bind _ _ secure_heap_used-Extends λ u. Locks-fail _)

-- If NewSecureBuffer returns a buffer, libcrypto said of its memory that it is of the secure heap; and the
-- buffer has the size asked for, which is 1 byte at least and 64 MiB at most.
pub new_secure_buffer_locked :
    (n : ℤ) (w : World) (b : SecureBuffer)
    → (new_secure_buffer n w).0 ≡ ok b
    → Asked w.lib "CRYPTO_secure_allocated" (OnHeap b) w.trace (new_secure_buffer n w).1.trace
      × ((m : ℕ) × (b.n ≡ pos m) × (n ≡ pos m) × (1 ≤ m) × (m ≤ max_output_length))
new_secure_buffer_locked n w b h =
    ((new_secure_buffer-Locks n).at w b h, new_secure_buffer_size n w b h)

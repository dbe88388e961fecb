-- ===== src/Secure.antt =====
-- ossl/secure.go: the secure heap and the buffers on it. What a buffer holds is C memory and not
-- modelled; the mutex is not modelled.
pub mod Balance
pub mod Locked
pub mod Tests
use Prim.Native.Nat.{bit_and}
use ossl_go.Prelude.{
  ℕ, ◌-◌, Bool, true, false, not, ◌||◌, List, [], ◌∷◌, Option, none, some, ◌==◌, if◌then◌else◌,
}
use ossl_go.Prelude.Int.{ℤ, pos, is_nonpos, ltb_ℤ, eq_ℕ, to_nat}
use ossl_go.Errors.{
  ok, heap_not_positive, heap_not_power, heap_initialised, buffer_not_positive, buffer_too_long,
  heap_not_initialised, heap_exhausted, not_from_heap, refused,
}
use ossl_go.Cgo.{
  Go, num, ptr, Reply, pure, fail, ◌>>=◌, ◌>>◌, call, call_one, acquire, make_or, release,
  clear_errors, refuse_if,
}
use ossl_go.Kdf.{max_output_length}

-- `SecureHeapInitialized()` and `SecureHeapUsed()`
unfoldable pub secure_heap_initialized : Go Bool
secure_heap_initialized = do r ← call "CRYPTO_secure_malloc_initialized" []; pure (eq_ℕ r.rc 1)

unfoldable pub secure_heap_used : Go ℕ
secure_heap_used = do
  up ← secure_heap_initialized
  if not up then pure 0 else (do r ← call "CRYPTO_secure_used" []; pure r.len)

-- `n&(n-1) != 0`, of a positive number
abbrev pub two_bits : ℤ → Bool
two_bits n = not (bit_and (to_nat n) (to_nat n - 1) == 0)

-- `InitSecureHeap(size, minAlloc)`
unfoldable pub init_secure_heap : ℤ → ℤ → Go (Unit {0})
init_secure_heap size min_alloc = do
  refuse_if (is_nonpos size || is_nonpos min_alloc) heap_not_positive
  refuse_if (two_bits size || two_bits min_alloc) heap_not_power
  up ← secure_heap_initialized
  refuse_if up heap_initialised
  clear_errors
  call_one "CRYPTO_secure_malloc_init" (num size ∷ num min_alloc ∷ []) "CRYPTO_secure_malloc_init"
  pure tt

unfoldable pub done_secure_heap : Go (Unit {0})
done_secure_heap = do
  clear_errors
  call_one "CRYPTO_secure_malloc_done" [] "CRYPTO_secure_malloc_done"
  pure tt

-- `at` is none once the buffer is closed.
pub record SecureBuffer : Type 0 where
  pub at : Option ℕ
  pub n : ℤ

-- The test that the allocation is of the secure heap.
unfoldable pub on_secure_heap : ℤ → ℕ → Go SecureBuffer
on_secure_heap n p = do
  r ← call "CRYPTO_secure_allocated" (ptr p ∷ [])
  refuse_if (not (eq_ℕ r.rc 1)) not_from_heap
  pure (record { at = some p; n = n })

-- `NewSecureBuffer(n)`
unfoldable pub new_secure_buffer : ℤ → Go SecureBuffer
new_secure_buffer n = do
  refuse_if (is_nonpos n) buffer_not_positive
  refuse_if (ltb_ℤ (pos max_output_length) n) buffer_too_long
  up ← secure_heap_initialized
  refuse_if (not up) heap_not_initialised
  clear_errors
  p ← acquire "ossl_secure_zalloc" (num n ∷ [])
  make_or (secure_heap_used >> fail (refused heap_exhausted)) "ossl_secure_clear_free"
      (on_secure_heap n) p

-- `b.Len()`
abbrev pub buffer_length : Option SecureBuffer → ℤ
buffer_length none = pos 0
buffer_length (some b) = b.n

-- `b.Close()` of a buffer that is not nil, as the buffer that it leaves.
unfoldable pub close_buffer : SecureBuffer → Go SecureBuffer
close_buffer b w = elim b.at [
  | none ↦ (ok b, w)
  | some p ↦ (ok (record { at = none; n = pos 0 }), release "ossl_secure_clear_free" p w)
]

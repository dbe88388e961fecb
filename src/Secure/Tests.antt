-- ===== src/Secure/Tests.antt =====
-- Tests of the secure heap, and the theorems at concrete inputs.
use ossl_go.Prelude.{[], ℕ, ◌≡◌, ◌≤◌, refl, some}
use ossl_go.Prelude.Int.{pos}
use ossl_go.Errors.{ok, err, refused, heap_not_power, heap_initialised}
use ossl_go.Cgo.{pure, fail, ◌>>=◌, call, acquire, owning, clear_errors}
use ossl_go.Cgo.Balance.{Balanced}
use ossl_go.Kdf.{max_output_length}
use ossl_go.Samples.{agreeing, fresh}
use ossl_go.Secure.{
  SecureBuffer, init_secure_heap, secure_heap_initialized, new_secure_buffer, on_secure_heap,
  close_buffer,
}
use ossl_go.Secure.Balance.{new_secure_buffer-close-Balanced}
use ossl_go.Secure.Locked.{OnHeap, new_secure_buffer_locked}
use ossl_go.Cgo.Trace.{Asked}

not_power : (init_secure_heap (pos 4096) (pos 48) fresh).0 ≡ err (refused heap_not_power)
unfolding init_secure_heap pure fail ◌>>=◌
not_power = refl

again : (init_secure_heap (pos 4096) (pos 32) fresh).0 ≡ err (refused heap_initialised)
unfolding init_secure_heap secure_heap_initialized call pure fail ◌>>=◌
again = refl

abbrev buffer : SecureBuffer
buffer = record { at = some 1; n = pos 32 }

makes : (new_secure_buffer (pos 32) fresh).0 ≡ ok buffer
unfolding new_secure_buffer secure_heap_initialized on_secure_heap acquire owning call clear_errors
    pure ◌>>=◌
makes = refl

new_secure_buffer-close-Balanced_example : Balanced (new_secure_buffer (pos 32) >>= close_buffer)
new_secure_buffer-close-Balanced_example = new_secure_buffer-close-Balanced (pos 32)

new_secure_buffer_locked_example :
    Asked agreeing "CRYPTO_secure_allocated"
      (OnHeap buffer)
      []
      (new_secure_buffer (pos 32) fresh).1.trace
    × ((m : ℕ) × (buffer.n ≡ pos m) × (pos 32 ≡ pos m) × (1 ≤ m) × (m ≤ max_output_length))
new_secure_buffer_locked_example = new_secure_buffer_locked (pos 32) fresh buffer makes

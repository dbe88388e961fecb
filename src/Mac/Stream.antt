-- ===== src/Mac/Stream.antt =====
-- The methods of a MAC after it is made, and the MAC of one call (ossl/mac.go).
use ossl_go.Prelude.{
  ℕ, Bytes, Bool, String, [], ◌∷◌, ◌++◌, Option, none, some, ◌==◌, if◌then◌else◌, length,
}
use ossl_go.Prelude.Int.{ℤ, pos, is_nonpos, to_nat}
use ossl_go.Errors.{Result, ok, err, panic, closed}
use ossl_go.Cgo.{
  World, Go, num, bytes, ptr, pure, fail, abort, ◌>>=◌, ◌>>◌, attempt, call_one, deferred, using,
}
use ossl_go.Params.{Builder}
use ossl_go.Context.{default}
use ossl_go.Sign.{slice_to}
use ossl_go.Digest.{unless_latched}
use ossl_go.Mac.{Mac, init_mac, close_mac, new_hmac}

-- A method whose failure is latched: its result, and the MAC that it leaves.
abbrev pub latching {ℓ} : {A : Type ℓ} → Mac → Result A → Go (Result A × Mac)
latching m (ok a) = pure (ok a, m)
latching m (err e) = pure (err e, record m { latch = some e })
latching m (panic s) = abort s

-- `Write`, whose check for a closed MAC latches nothing.
abbrev pub update_at : Option ℕ → Mac → Bytes → Go (Result ℕ × Mac)
update_at none m b = pure (err closed, m)
update_at (some c) m b =
    if length b == 0
    then pure (ok 0, m)
    else (attempt
          (call_one "EVP_MAC_update" (ptr c ∷ bytes b ∷ []) "EVP_MAC_update" >> pure (length b))
        >>= latching m)

unfoldable pub write_mac : Mac → Bytes → Go (Result ℕ × Mac)
write_mac m b = update_at m.ctx m b

-- `size := m.size; if size <= 0 { size = 64 }`
abbrev pub tag_room : ℤ → ℕ
tag_room n = if is_nonpos n then 64 else to_nat n

-- The tag of a copy of the state of the context `c`.
unfoldable pub tag_of : ℕ → ℤ → Go Bytes
tag_of c size = using "EVP_MAC_CTX_dup" (ptr c ∷ []) "EVP_MAC_CTX_dup" "EVP_MAC_CTX_free" λ dup. do
  r ← call_one "EVP_MAC_final" (ptr dup ∷ num (pos (tag_room size)) ∷ []) "EVP_MAC_final"
  slice_to (tag_room size) r

abbrev pub tag_at : Option ℕ → ℤ → Go Bytes
tag_at none size = fail closed
tag_at (some c) size = tag_of c size

-- What `Sum` appends to `b`.
abbrev pub appended : Bytes → Result Bytes × Mac → Go (Bytes × Mac)
appended b (ok s, m) = pure (b ++ s, m)
appended b (err e, m) = pure (b, m)
appended b (panic s, m) = abort s

-- `m.Sum(b)`: it returns `b` alone where it fails, and latches the error.
unfoldable pub sum_mac : Mac → Bytes → Go (Bytes × Mac)
sum_mac m b = attempt (tag_at m.ctx m.size) >>= latching m >>= appended b

abbrev pub restarted : Mac → Result Builder × Mac → Go Mac
restarted m (ok p, m') = pure (record m' { p = some p })
restarted m (err e, m') = pure m'
restarted m (panic s, m') = abort s

abbrev pub restart_at : Option ℕ → Option Builder → Mac → Go Mac
restart_at none p m = pure m
restart_at (some c) none m = abort "invalid memory address or nil pointer dereference"
restart_at (some c) (some p) m = attempt (init_mac c m.key p) >>= latching m >>= restarted m

-- `m.Reset()`
unfoldable pub reset_mac : Mac → Go Mac
reset_mac m = restart_at m.ctx m.p m

abbrev pub closing : Mac → World → World
closing m w = (close_mac m w).1

abbrev pub summed : Bytes × Mac → Go Bytes
summed (s, m) = unless_latched s m.latch

abbrev pub after_write {ℓ} : {A : Type ℓ} → (Mac → Go A) → Result ℕ × Mac → Go A
after_write k (ok n, m) = k m
after_write k (err e, m) = fail e
after_write k (panic s, m) = abort s

-- `HMACSum(digest, key, data)`
unfoldable pub hmac_sum : String → Bytes → Bytes → Go Bytes
hmac_sum digest key input = do
  m ← new_hmac (some default) digest key
  deferred (closing m) (write_mac m input >>= after_write λ m'. sum_mac m' [] >>= summed)

-- `subtle.ConstantTimeCompare(a, b)` is 1 for equal contents, and 0 otherwise.
abbrev pub constant_time_compare : Bytes → Bytes → ℕ
constant_time_compare [] [] = 1
constant_time_compare [] (y ∷ ys) = 0
constant_time_compare (x ∷ xs) [] = 0
constant_time_compare (x ∷ xs) (y ∷ ys) =
    let rest = constant_time_compare xs ys in if x == y then rest else 0

-- `EqualMAC(a, b)`
unfoldable pub equal_mac : Bytes → Bytes → Bool
equal_mac a b = constant_time_compare a b == 1

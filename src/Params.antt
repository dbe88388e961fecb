-- ===== src/Params.antt =====
-- ossl/params.go: the builder of OSSL_PARAM arrays. Every referent is copied to C memory that the
-- builder's arena holds, so that one deferred `free` releases all of it. A method that returns its
-- receiver is a function `Builder → Go Builder`, so that a chain of methods is a chain of `>>=`.
pub mod Arena
pub mod Freed
pub mod Calls
pub mod Entries
use ossl_go.Prelude.{
  ℕ, suc, ◌+◌, ◌-◌, ◌%◌, ◌^◌, Bytes, Bool, true, false, String, str_len, List, [], ◌∷◌, ◌++◌,
  Option, none, some, if◌then◌else◌, length,
}
use ossl_go.Prelude.Int.{ℤ, pos, negsuc, is_nonpos}
use ossl_go.Cgo.{
  Value, utf8_string, octet_string, int_value, uint_value, size_value, octets_room, octets_nil,
  end_mark, Param, num, World, Go, pure, abort, ◌>>=◌, acquire, release, deferred,
}

pub record Builder : Type 0 where
  pub list : List Param
  pub arena : List ℕ
  pub ended : Bool
  pub freed : Bool

abbrev pub empty_builder : Builder
empty_builder = record { list = []; arena = []; ended = false; freed = false }

unfoldable pub new_params : Go Builder
unfolding pure
new_params = pure empty_builder

-- The conversion of a Go `int` to an unsigned C integer of `w` bits, and the bits of a signed one.
abbrev pub wrap : ℕ → ℤ → ℕ
wrap w (pos n) = n % 2 ^ w
wrap w (negsuc n) = 2 ^ w - 1 - n % 2 ^ w

abbrev pub at_least_one : ℤ → ℤ
at_least_one n = if is_nonpos n then pos 1 else n

abbrev pub keep : Builder → Option ℕ → Go (ℕ × Builder)
keep p none = abort "ossl: C.calloc failed"
keep p (some q) = pure (q, record p { arena = p.arena ++ q ∷ [] })

-- `alloc(n)`: `n` zeroed bytes that the arena owns.
unfoldable pub alloc : ℤ → Builder → Go (ℕ × Builder)
unfolding pure abort ◌>>=◌
alloc n p = do q ← acquire "calloc" (num (pos 1) ∷ num (at_least_one n) ∷ []); keep p q

-- `cstr` copies a string and its terminator, `cbytes` a slice.
unfoldable pub cstr : String → Builder → Go (ℕ × Builder)
cstr s p = alloc (pos (str_len s + 1)) p

unfoldable pub cbytes : Bytes → Builder → Go (ℕ × Builder)
cbytes b p = alloc (pos (length b)) p

-- `p.list = append(p.list, ...)`
abbrev pub push : String → Value → List ℕ → Builder → Builder
push k v refs p = record p { list = p.list ++ record { key = k; value = v; refs = refs } ∷ [] }

unfoldable pub utf8 : String → String → Builder → Go Builder
unfolding pure
utf8 k val p = do
  (kp, p1) ← cstr k p
  (vp, p2) ← cstr val p1
  pure (push k (utf8_string val) (kp ∷ vp ∷ []) p2)

unfoldable pub octets : String → Bytes → Builder → Go Builder
unfolding pure
octets k b p = do
  (kp, p1) ← cstr k p
  (vp, p2) ← cbytes b p1
  pure (push k (octet_string b) (kp ∷ vp ∷ []) p2)

-- The scalars are allocated before the key.
abbrev scalar : ℕ → String → Value → Builder → Go Builder
scalar size k v p = do
  (q, p1) ← alloc (pos size) p
  (kp, p2) ← cstr k p1
  pure (push k v (kp ∷ q ∷ []) p2)

unfoldable pub int : String → ℤ → Builder → Go Builder
unfolding pure
int k v p = scalar 4 k (int_value (wrap 32 v)) p

unfoldable pub uint : String → ℕ → Builder → Go Builder
unfolding pure
uint k v p = scalar 4 k (uint_value (v % 2 ^ 32)) p

unfoldable pub size_t : String → ℤ → Builder → Go Builder
unfolding pure
size_t k v p = scalar 8 k (size_value (wrap 64 v)) p

-- The address of the output buffer comes back beside the builder.
unfoldable pub octets_out : String → ℤ → Builder → Go (ℕ × Builder)
unfolding pure
octets_out k n p = do
  (q, p1) ← alloc n p
  (kp, p2) ← cstr k p1
  pure (q, push k (octets_room (wrap 64 n)) (kp ∷ q ∷ []) p2)

-- A NULL data pointer with a size; only the key is copied.
unfoldable pub octets_nil_data : String → ℤ → Builder → Go Builder
unfolding pure
octets_nil_data k n p = do (kp, p1) ← cstr k p; pure (push k (octets_nil (wrap 64 n)) (kp ∷ []) p1)

abbrev pub terminated : Builder → Builder
terminated p = if p.ended then p else record p {
  list = p.list ++ record { key = ""; value = end_mark; refs = [] } ∷ [];
  ended = true;
}

-- `c()`: the array that a C function is given, ended once.
unfoldable pub c : Builder → Go Builder
unfolding pure abort
c p = if p.freed then abort "ossl: params used after free" else pure (terminated p)

unfoldable pub release_all : List ℕ → World → World
release_all [] w = w
release_all (q ∷ qs) w = release_all qs (release "free" q w)

abbrev pub freed_builder : Builder → Builder
freed_builder p = record p { list = []; arena = []; freed = true }

unfoldable pub free : Builder → World → Builder × World
unfolding release_all
free p w = (freed_builder p, release_all p.arena w)

-- `p := build; defer p.free()` around the rest
unfoldable pub with_params {ℓ} : {A : Type ℓ} → Go Builder → (Builder → Go A) → Go A
unfolding free
with_params build body = do p ← build; deferred (λ w. (free p w).1) (body p)

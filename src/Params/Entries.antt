-- ===== src/Params/Entries.antt =====
-- The parameters that a chain of builder methods leaves in the array, in order, and that `c` hands on
-- with one end mark behind them.
use mathlib.Core.List.{map-append}
use ossl_go.Prelude.{
  Option, none, some, ℕ, ◌%◌, ◌^◌, ◌≡◌, refl, sym, ◌∙◌, ap, Bytes, false, String, List, [], ◌∷◌,
  ◌++◌, map, arith,
}
use ossl_go.Prelude.Int.{ℤ}
use ossl_go.Cgo.{
  Go, Value, utf8_string, octet_string, int_value, uint_value, size_value, octets_nil, end_mark,
  Param, Arg, params, pure, ◌>>=◌,
}
use ossl_go.Cgo.Returns.{Ensures, Ensures-pure, Ensures-abort, Ensures-bind, Ensures-bind_of}
use ossl_go.Params.{
  Builder, new_params, keep, terminated, push, wrap, c, alloc, cstr, cbytes, utf8, octets, int,
  uint, size_t, octets_nil_data,
}

abbrev pub Entry : Type 0
Entry = String × Value

abbrev pub entry : Param → Entry
entry p = (p.key, p.value)

abbrev pub entries : List Param → List Entry
entries = map entry

-- The array of parameters among the arguments of a call.
abbrev pub args_entries : List Arg → List Entry
args_entries [] = []
args_entries (params l ∷ args) = entries l
args_entries (_ ∷ args) = args_entries args

-- The builder holds `kvs`, and has been neither ended nor freed.
pub record Holds (kvs : List Entry) (p : Builder) : Type 0 where
  pub held : entries p.list ≡ kvs
  pub open_ended : p.ended ≡ false
  pub unfreed : p.freed ≡ false

-- A method that, where it returns, adds `kvs`.
pub record Appends (kvs : List Entry) (m : Builder → Go Builder) : Type 0 where
  pub at : (have : List Entry) (p : Builder) → Holds have p → Ensures (Holds (have ++ kvs)) (m p)

-- An allocation changes nothing but the arena.
pub record SameList (p q : Builder) : Type 0 where
  pub list : q.list ≡ p.list
  pub ended : q.ended ≡ p.ended
  pub freed : q.freed ≡ p.freed

keep-SameList : (p : Builder) (o : Option ℕ) → Ensures (λ r. SameList p r.1) (keep p o)
keep-SameList p none = Ensures-abort _
keep-SameList p (some q) = Ensures-pure _ (record { list = refl; ended = refl; freed = refl })

alloc-SameList : (n : ℤ) (p : Builder) → Ensures (λ r. SameList p r.1) (alloc n p)
unfolding alloc
alloc-SameList n p = Ensures-bind _ _ (keep-SameList p)

cstr-SameList : (s : String) (p : Builder) → Ensures (λ r. SameList p r.1) (cstr s p)
unfolding cstr
cstr-SameList s p = alloc-SameList _ p

cbytes-SameList : (b : Bytes) (p : Builder) → Ensures (λ r. SameList p r.1) (cbytes b p)
unfolding cbytes
cbytes-SameList b p = alloc-SameList _ p

Holds-SameList : {kvs : List Entry} {p q : Builder} → SameList p q → Holds kvs p → Holds kvs q
Holds-SameList s h = record {
  held = ap entries s.list ∙ h.held;
  open_ended = s.ended ∙ h.open_ended;
  unfreed = s.freed ∙ h.unfreed;
}

Holds-push :
    (kvs : List Entry) (p : Builder) (k : String) (v : Value) (refs : List ℕ)
    → Holds kvs p
    → Holds (kvs ++ (k, v) ∷ []) (push k v refs p)
Holds-push kvs p k v refs h = record {
  held = map-append _ p.list _ ∙ ap (λ l. l ++ (k, v) ∷ []) h.held;
  open_ended = h.open_ended;
  unfreed = h.unfreed;
}

-- two allocations and a push, in either order of the allocations
two_then_push :
    (m n : Builder → Go (ℕ × Builder)) (k : String) (v : Value) (refs : ℕ → ℕ → List ℕ)
    → ((p : Builder) → Ensures (λ r. SameList p r.1) (m p))
    → ((p : Builder) → Ensures (λ r. SameList p r.1) (n p))
    → Appends ((k, v) ∷ []) (λ p. m p >>= λ q. n q.1 >>= λ r. pure (push k v (refs q.0 r.0) r.1))
two_then_push m n k v refs em en = record {
  at = λ have p h. Ensures-bind_of (m p) _ λ w q eq. Ensures-bind_of (n q.1) _ λ w' r er.
      Ensures-pure _ (
        Holds-push have r.1 k v _
          (Holds-SameList ((en q.1).at w' r er) (Holds-SameList ((em p).at w q eq) h)));
}

pub utf8-Appends : (k v : String) → Appends ((k, utf8_string v) ∷ []) (utf8 k v)
unfolding utf8
utf8-Appends k v =
    two_then_push (cstr k) (cstr v) k _ (λ q r. q ∷ r ∷ []) (cstr-SameList k) (cstr-SameList v)

pub octets-Appends : (k : String) (b : Bytes) → Appends ((k, octet_string b) ∷ []) (octets k b)
unfolding octets
octets-Appends k b =
    two_then_push (cstr k) (cbytes b) k _ (λ q r. q ∷ r ∷ []) (cstr-SameList k) (cbytes-SameList b)

pub int-Appends : (k : String) (v : ℤ) → Appends ((k, int_value (wrap 32 v)) ∷ []) (int k v)
unfolding int
int-Appends k v =
    two_then_push (alloc _) (cstr k) k _ (λ q r. r ∷ q ∷ []) (alloc-SameList _) (cstr-SameList k)

pub uint-Appends : (k : String) (v : ℕ) → Appends ((k, uint_value (v % 2 ^ 32)) ∷ []) (uint k v)
unfolding uint
uint-Appends k v =
    two_then_push (alloc _) (cstr k) k _ (λ q r. r ∷ q ∷ []) (alloc-SameList _) (cstr-SameList k)

pub size_t-Appends : (k : String) (v : ℤ) → Appends ((k, size_value (wrap 64 v)) ∷ []) (size_t k v)
unfolding size_t
size_t-Appends k v =
    two_then_push (alloc _) (cstr k) k _ (λ q r. r ∷ q ∷ []) (alloc-SameList _) (cstr-SameList k)

pub octets_nil_data-Appends :
    (k : String) (n : ℤ) → Appends ((k, octets_nil (wrap 64 n)) ∷ []) (octets_nil_data k n)
unfolding octets_nil_data
octets_nil_data-Appends k n = record {
  at = λ have p h. Ensures-bind_of (cstr k p) _ λ w q eq.
      Ensures-pure _ (Holds-push have q.1 k _ _ (Holds-SameList ((cstr-SameList k p).at w q eq) h));
}

pub new_params-Holds : Ensures (Holds []) new_params
unfolding new_params
new_params-Holds = Ensures-pure _ (record { held = refl; open_ended = refl; unfreed = refl })

pub Holds-bind :
    (have kvs : List Entry) (m : Go Builder) (f : Builder → Go Builder)
    → Ensures (Holds have) m
    → Appends kvs f
    → Ensures (Holds (have ++ kvs)) (m >>= f)
Holds-bind have kvs m f h k = Ensures-bind_of m f λ w p e. k.at have p (h.at w p e)

-- `c` puts one end mark behind what the builder holds.
pub c_held :
    (kvs : List Entry) (p : Builder)
    → Holds kvs p
    → Ensures (λ q. entries q.list ≡ kvs ++ ("", end_mark) ∷ []) (c p)
unfolding c
c_held kvs p h = record {
  at = λ w q e.
      let t : terminated p ≡ q = ground arith in
      let l : (terminated p).list
          ≡ p.list ++ record { key = ""; value = end_mark; refs = [] } ∷ [] =
        ground arith in
      ap (λ b. entries b.list) (sym t)
      ∙ ap entries l
      ∙ map-append _ p.list _
      ∙ ap (λ l. l ++ ("", end_mark) ∷ []) h.held;
}

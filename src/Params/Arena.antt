-- ===== src/Params/Arena.antt =====
-- A chain of builder methods holds just what its arena lists, and `free` gives all of it back.
use ossl_go.Prelude.{
  ℕ, ◌+◌, ◌≡◌, refl, ◌∙◌, Bytes, true, false, Bool, String, List, [], ◌∷◌, ◌++◌, Option, none, some,
  arith, if◌then◌else◌,
}
use ossl_go.Prelude.Int.{ℤ}
use ossl_go.Errors.{Result, ok, err, panic}
use ossl_go.Cgo.{World, Go, Value, pure, abort, ◌>>=◌, continue, acquire}
use ossl_go.Cgo.Balance.{Acquired, acquire-Acquired}
use ossl_go.Cgo.Refs.{count}
use ossl_go.Cgo.Uses.{}
use ossl_go.Params.{
  octets_out, Builder, new_params, empty_builder, alloc, cstr, cbytes, utf8, octets, int, uint,
  size_t, octets_nil_data, push, keep,
}

pub count-append : (a : ℕ) (xs ys : List ℕ) → count a (xs ++ ys) ≡ count a xs + count a ys
count-append a [] ys = omega arith
count-append a (x ∷ xs) ys = ground (arith, count-append a xs ys)

-- From `w` with builder `p` to `w'` with `p'`: the new references are those that the arena lists.
pub record Tracks (w : World) (p : Builder) (w' : World) (p' : Builder) : Type 0 where
  pub live : (a : ℕ) → w'.live a + count a p.arena ≡ w.live a + count a p'.arena
  pub bad : w'.bad_frees ≡ w.bad_frees

pub Tracks-trans :
    {u v w : World} {p q r : Builder} → Tracks u p v q → Tracks v q w r → Tracks u p w r
Tracks-trans s t = record { live = λ a. omega (arith, s.live a, t.live a); bad = t.bad ∙ s.bad }

-- Such a function ends in a value, or panics because `calloc` failed.
abbrev pub Ends {ℓ} : {A : Type ℓ} → Result A → (A → Type 0) → Type 0
Ends (ok a) P = P a
Ends (err e) P = ⊥
Ends (panic s) P = Unit

pub record Adds (m : Builder → Go Builder) : Type 0 where
  pub at : (p : Builder) (w : World) → Ends (m p w).0 (λ p'. Tracks w p (m p w).1 p')

pub record AddsRef (m : Builder → Go (ℕ × Builder)) : Type 0 where
  pub at : (p : Builder) (w : World) → Ends (m p w).0 (λ r. Tracks w p (m p w).1 r.1)

keep-Tracks :
    (p : Builder) (w : World) (r : Result (Option ℕ)) (w' : World)
    → Acquired w r w'
    → let m = continue r (keep p) w' in Ends m.0 (λ r. Tracks w p m.1 r.1)
unfolding pure abort
keep-Tracks p w (ok none) w' q = tt
keep-Tracks p w (ok (some a)) w' (l, b) = record {
  live = λ i. ground (arith, l i, count-append i p.arena (a ∷ []));
  bad = b;
}
keep-Tracks p w (err e) w' q = elim q [ ]
keep-Tracks p w (panic s) w' q = elim q [ ]

pub alloc-AddsRef : (n : ℤ) → AddsRef (alloc n)
unfolding alloc
alloc-AddsRef n = record {
  at = λ p w. keep-Tracks p w (acquire _ _ w).0 (acquire _ _ w).1 (acquire-Acquired _ _ w);
}

ends_then :
    (w u : World) (p : Builder) (r : Result (ℕ × Builder)) (f : ℕ → Builder → Go Builder)
    → Ends r (λ q. Tracks w p u q.1)
    → ((a : ℕ) → Adds (f a))
    → let m = continue r (λ q. f q.0 q.1) u in Ends m.0 (λ p'. Tracks w p m.1 p')
ends_then w u p (ok (a, q)) f t k = go (f a q u).0 ((k a).at q u)
  where
    go :
        (r : Result Builder)
        → Ends r (λ p'. Tracks u q (f a q u).1 p')
        → Ends r (λ p'. Tracks w p (f a q u).1 p')
    go (ok p') s = Tracks-trans t s
    go (err e) s = elim s [ ]
    go (panic m) s = tt
ends_then w u p (err e) f t k = elim t [ ]
ends_then w u p (panic s) f t k = tt

Adds-bind :
    (m : Builder → Go (ℕ × Builder)) (f : ℕ → Builder → Go Builder)
    → AddsRef m
    → ((a : ℕ) → Adds (f a))
    → Adds (λ p. m p >>= λ q. f q.0 q.1)
unfolding ◌>>=◌
Adds-bind m f a k = record { at = λ p w. ends_then w (m p w).1 p (m p w).0 f (a.at p w) k }

ref_then :
    (w u : World) (p : Builder) (r : Result (ℕ × Builder)) (f : ℕ → Builder → Go (ℕ × Builder))
    → Ends r (λ q. Tracks w p u q.1)
    → ((a : ℕ) → AddsRef (f a))
    → let m = continue r (λ q. f q.0 q.1) u in Ends m.0 (λ q. Tracks w p m.1 q.1)
ref_then w u p (ok (a, q)) f t k = go (f a q u).0 ((k a).at q u)
  where
    go :
        (r : Result (ℕ × Builder))
        → Ends r (λ x. Tracks u q (f a q u).1 x.1)
        → Ends r (λ x. Tracks w p (f a q u).1 x.1)
    go (ok x) s = Tracks-trans t s
    go (err e) s = elim s [ ]
    go (panic m) s = tt
ref_then w u p (err e) f t k = elim t [ ]
ref_then w u p (panic s) f t k = tt

AddsRef-bind :
    (m : Builder → Go (ℕ × Builder)) (f : ℕ → Builder → Go (ℕ × Builder))
    → AddsRef m
    → ((a : ℕ) → AddsRef (f a))
    → AddsRef (λ p. m p >>= λ q. f q.0 q.1)
unfolding ◌>>=◌
AddsRef-bind m f a k = record { at = λ p w. ref_then w (m p w).1 p (m p w).0 f (a.at p w) k }

Adds-push : (k : String) (v : Value) (refs : List ℕ) → Adds (λ p. pure (push k v refs p))
unfolding pure
Adds-push k v refs = record { at = λ p w. record { live = λ a. refl; bad = refl } }

cstr-AddsRef : (s : String) → AddsRef (cstr s)
unfolding cstr
cstr-AddsRef s = alloc-AddsRef _

cbytes-AddsRef : (b : Bytes) → AddsRef (cbytes b)
unfolding cbytes
cbytes-AddsRef b = alloc-AddsRef _

pub utf8-Adds : (k v : String) → Adds (utf8 k v)
unfolding utf8
utf8-Adds k v =
    Adds-bind (cstr k) _ (cstr-AddsRef k)
      λ kp. Adds-bind (cstr v) _ (cstr-AddsRef v) λ vp. Adds-push k _ _

pub octets-Adds : (k : String) (b : Bytes) → Adds (octets k b)
unfolding octets
octets-Adds k b =
    Adds-bind (cstr k) _ (cstr-AddsRef k)
      λ kp. Adds-bind (cbytes b) _ (cbytes-AddsRef b) λ vp. Adds-push k _ _

scalar-Adds :
    (n : ℤ) (k : String) (v : Value)
    → Adds (λ p. alloc n p >>= λ q. cstr k q.1 >>= λ r. pure (push k v (r.0 ∷ q.0 ∷ []) r.1))
scalar-Adds n k v =
    Adds-bind (alloc n) _ (alloc-AddsRef n)
      λ q. Adds-bind (cstr k) _ (cstr-AddsRef k) λ kp. Adds-push k v _

pub int-Adds : (k : String) (v : ℤ) → Adds (int k v)
unfolding int
int-Adds k v = scalar-Adds _ k _

pub uint-Adds : (k : String) (v : ℕ) → Adds (uint k v)
unfolding uint
uint-Adds k v = scalar-Adds _ k _

pub size_t-Adds : (k : String) (v : ℤ) → Adds (size_t k v)
unfolding size_t
size_t-Adds k v = scalar-Adds _ k _

pub octets_nil_data-Adds : (k : String) (n : ℤ) → Adds (octets_nil_data k n)
unfolding octets_nil_data
octets_nil_data-Adds k n = Adds-bind (cstr k) _ (cstr-AddsRef k) λ kp. Adds-push k _ _

AddsRef-push :
    (k : String) (v : Value) (refs : List ℕ) (a : ℕ) → AddsRef (λ p. pure (a, push k v refs p))
unfolding pure
AddsRef-push k v refs a = record { at = λ p w. record { live = λ i. refl; bad = refl } }

octets_out-AddsRef : (k : String) (n : ℤ) → AddsRef (octets_out k n)
unfolding octets_out
octets_out-AddsRef k n =
    AddsRef-bind (alloc n) _ (alloc-AddsRef n)
      λ q. AddsRef-bind (cstr k) _ (cstr-AddsRef k) λ kp. AddsRef-push k _ _ q

-- A chain of methods that begins with `newParams()`.
pub record Builds (m : Go Builder) : Type 0 where
  pub at : (w : World) → Ends (m w).0 (λ p. Tracks w empty_builder (m w).1 p)

pub Builds-new_params : Builds new_params
unfolding new_params
Builds-new_params = record { at = λ w. record { live = λ a. refl; bad = refl } }

builds_then :
    (w u : World) (r : Result Builder) (f : Builder → Go Builder)
    → Ends r (λ p. Tracks w empty_builder u p)
    → Adds f
    → let m = continue r f u in Ends m.0 (λ p'. Tracks w empty_builder m.1 p')
builds_then w u (ok p) f t k = go (f p u).0 (k.at p u)
  where
    go :
        (r : Result Builder)
        → Ends r (λ p'. Tracks u p (f p u).1 p')
        → Ends r (λ p'. Tracks w empty_builder (f p u).1 p')
    go (ok p') s = Tracks-trans t s
    go (err e) s = elim s [ ]
    go (panic m) s = tt
builds_then w u (err e) f t k = elim t [ ]
builds_then w u (panic s) f t k = tt

pub Builds-bind : (m : Go Builder) (f : Builder → Go Builder) → Builds m → Adds f → Builds (m >>= f)
unfolding ◌>>=◌
Builds-bind m f b k = record { at = λ w. builds_then w (m w).1 (m w).0 f (b.at w) k }

pub Builds-if : (b : Bool) (m n : Go Builder) → Builds m → Builds n → Builds (if b then m else n)
Builds-if true m n p q = p
Builds-if false m n p q = q

pub Adds-if : (b : Bool) (f : Builder → Go Builder) → Adds f → Adds (λ p. if b then f p else pure p)
unfolding pure
Adds-if true f k = k
Adds-if false f k = record { at = λ p w. record { live = λ a. refl; bad = refl } }

pub Adds-pure : Adds pure
unfolding pure
Adds-pure = record { at = λ p w. record { live = λ a. refl; bad = refl } }

-- one method after another
add_then :
    (w u : World) (p : Builder) (r : Result Builder) (f : Builder → Go Builder)
    → Ends r (λ q. Tracks w p u q)
    → Adds f
    → let m = continue r f u in Ends m.0 (λ q. Tracks w p m.1 q)
add_then w u p (ok q) f t k = go (f q u).0 (k.at q u)
  where
    go :
        (r : Result Builder)
        → Ends r (λ x. Tracks u q (f q u).1 x)
        → Ends r (λ x. Tracks w p (f q u).1 x)
    go (ok x) s = Tracks-trans t s
    go (err e) s = elim s [ ]
    go (panic m) s = tt
add_then w u p (err e) f t k = elim t [ ]
add_then w u p (panic s) f t k = tt

pub Adds-then : (m f : Builder → Go Builder) → Adds m → Adds f → Adds (λ p. m p >>= f)
unfolding ◌>>=◌
Adds-then m f a k = record { at = λ p w. add_then w (m p w).1 p (m p w).0 f (a.at p w) k }

-- `q := p.OctetsOut(k, n)`, of which only the builder is looked at
pub octets_out-Adds : (k : String) (n : ℤ) → Adds (λ p. octets_out k n p >>= λ q. pure q.1)
octets_out-Adds k n = Adds-bind (octets_out k n) _ (octets_out-AddsRef k n) λ a. Adds-pure

pub ruleset builds_rules = (
  Builds-new_params, Builds-bind, Builds-if, Adds-if, utf8-Adds, octets-Adds, int-Adds, uint-Adds,
  size_t-Adds, octets_nil_data-Adds,
)

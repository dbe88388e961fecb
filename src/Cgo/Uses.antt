-- ===== src/Cgo/Uses.antt =====
-- Functions that hold several references: from those of a list to those that the result lists, and to
-- those of a third list where they return an error.
use ossl_go.Prelude.{
  refl, ℕ, suc, ◌∙◌, Bool, true, false, String, List, [], ◌∷◌, Option, none, some, arith,
  if◌then◌else◌,
}
use ossl_go.Prelude.Int.{eq_ℕ}
use ossl_go.Errors.{Result, Error, ok, err, panic}
use ossl_go.Cgo.{
  World, Go, Arg, pure, fail, abort, ◌>>=◌, continue, deferred, release, acquire, acquire_or,
  or_new_error, up_ref, ptr, using, new_error, owning, give_back, with_cstring, with_block, bump,
  clear_errors, call,
}
use ossl_go.Cgo.Balance.{SameHeap, UnlessPanic, Balanced, Acquired, acquire-Acquired}
use ossl_go.Cgo.Refs.{
  Over, SameRefs, Over-release, Over-unframe, Over-same, Over-SameHeap, Over-nil, Over-start,
  Over-more,
}

abbrev pub EndsOver {ℓ} : {A : Type ℓ} → World → List ℕ → (A → List ℕ) → Result A → World → Type 0
EndsOver u ys refs (ok x) w = Over u (refs x) w
EndsOver u ys refs (err e) w = Over u ys w
EndsOver u ys refs (panic s) w = Unit

pub record Uses {ℓ} {A : Type ℓ} (xs ys : List ℕ) (refs : A → List ℕ) (m : Go A) : Type 0 where
  pub at : (u w : World) → Over u xs w → EndsOver u ys refs (m w).0 (m w).1

module _ {ℓ} {A : Type ℓ} {xs ys : List ℕ} {refs : A → List ℕ} where
  pub Uses-pure : (x : A) → SameRefs xs (refs x) → Uses xs ys refs (pure x)
  unfolding pure
  Uses-pure x p = record { at = λ u w h. Over-same p h }

  pub Uses-fail : (e : Error) → SameRefs xs ys → Uses xs ys refs (fail e)
  unfolding fail
  Uses-fail e p = record { at = λ u w h. Over-same p h }

  pub Uses-new_error : (op : String) → SameRefs xs ys → Uses xs ys refs (new_error op)
  unfolding new_error
  Uses-new_error op p = record { at = λ u w h. Over-same p (record { live = h.live; bad = h.bad }) }

  pub Uses-abort : (s : String) → Uses xs ys refs (abort s)
  unfolding abort
  Uses-abort s = record { at = λ u w h. tt }

  pub Uses-if :
      (b : Bool) (m n : Go A)
      → Uses xs ys refs m
      → Uses xs ys refs n
      → Uses xs ys refs (if b then m else n)
  Uses-if true m n p q = p
  Uses-if false m n p q = q

  pub Uses-bind {κ} :
      {B : Type κ} {mid : B → List ℕ} (m : Go B) (f : B → Go A)
      → Uses xs ys mid m
      → ((b : B) → Uses (mid b) ys refs (f b))
      → Uses xs ys refs (m >>= f)
  unfolding ◌>>=◌
  Uses-bind {B = B} {mid = mid} m f p k = record { at = λ u w h. go u (m w).0 (m w).1 (p.at u w h) }
    where
      go :
          (u : World) (r : Result B) (v : World)
          → EndsOver u ys mid r v
          → EndsOver u ys refs (continue r f v).0 (continue r f v).1
      go u (ok b) v h = (k b).at u v h
      go u (err e) v h = h
      go u (panic s) v h = tt

same-Over {ℓ} :
    {A : Type ℓ} (u w v : World) (xs : List ℕ) (r : Result A)
    → UnlessPanic r (SameHeap w v)
    → Over u xs w
    → EndsOver u xs (λ x. xs) r v
same-Over u w v xs (ok x) s h = Over-SameHeap s h
same-Over u w v xs (err e) s h = Over-SameHeap s h
same-Over u w v xs (panic t) s h = tt

-- the list of the references, in another order
pub Uses-from {ℓ} :
    {A : Type ℓ} {xs zs ys : List ℕ} {refs : A → List ℕ} {m : Go A}
    → SameRefs xs zs
    → Uses zs ys refs m
    → Uses xs ys refs m
Uses-from p q = record { at = λ u w h. q.at u w (Over-same p h) }

-- a balanced function leaves them as they are
pub Uses-Balanced {ℓ} : {A : Type ℓ} {xs : List ℕ} (m : Go A) → Balanced m → Uses xs xs (λ x. xs) m
Uses-Balanced {xs = xs} m b = record { at = λ u w h. same-Over u w (m w).1 xs (m w).0 (b.at w) h }

module _ {ℓ} {A : Type ℓ} (refs : A → List ℕ) where
  given_over :
      (free : String) (a : ℕ) (xs : List ℕ) (u v : World) (r : Result A)
      → EndsOver u (a ∷ xs) refs r v
      → EndsOver u xs refs r (give_back free a r v)
  given_over free a xs u v (ok x) h = h
  given_over free a xs u v (err e) h = Over-release free h
  given_over free a xs u v (panic s) h = tt

  -- a reference of the frame, given back at the end
  unframed :
      (f : String) (a : ℕ) (ys : List ℕ) (u v : World) (r : Result A)
      → EndsOver (record u { live = bump u.live a }) ys refs r v
      → EndsOver u ys refs r (release f a v)
  unframed f a ys u v (ok x) h = Over-unframe a f h
  unframed f a ys u v (err e) h = Over-unframe a f h
  unframed f a ys u v (panic s) h = tt

module _ {ℓ} {A : Type ℓ} {xs : List ℕ} {refs : A → List ℕ} where
  -- where the body ends in an error, it still holds the reference that is given back
  pub Uses-owning :
      {ys : List ℕ} (free : String) (a : ℕ) (m : Go A)
      → Uses xs (a ∷ ys) refs m
      → Uses xs ys refs (owning free a m)
  unfolding owning
  Uses-owning {ys = ys} free a m p = record {
    at = λ u w h. given_over refs free a ys u (m w).1 (m w).0 (p.at u w h);
  }

  Acquired-Over :
      (ys : List ℕ) (u w v : World) (r : Result (Option ℕ)) (k : Option ℕ → Go A)
      → Acquired w r v
      → Over u xs w
      → Uses xs ys refs (k none)
      → ((a : ℕ) → Uses (a ∷ xs) ys refs (k (some a)))
      → EndsOver u ys refs (continue r k v).0 (continue r k v).1
  Acquired-Over ys u w v (ok none) k q h p f = p.at u v (Over-SameHeap q h)
  Acquired-Over ys u w v (ok (some a)) k (l, b) h p f = (f a).at u v (Over-more h l b)
  Acquired-Over ys u w v (err e) k q h p f = elim q [ ]
  Acquired-Over ys u w v (panic s) k q h p f = elim q [ ]

  pub Uses-acquire :
      {ys : List ℕ} (f : String) (args : List Arg) (k : Option ℕ → Go A)
      → Uses xs ys refs (k none)
      → ((a : ℕ) → Uses (a ∷ xs) ys refs (k (some a)))
      → Uses xs ys refs (acquire f args >>= k)
  unfolding ◌>>=◌
  Uses-acquire {ys = ys} f args k p q = record {
    at = λ u w h.
        Acquired-Over ys u w (acquire f args w).1 (acquire f args w).0 k (acquire-Acquired f args w)
          h p q;
  }

  pub Uses-with_cstring :
      {ys : List ℕ} (s : String) (body : Go A)
      → Uses xs ys refs body
      → Uses xs ys refs (with_cstring s body)
  unfolding with_cstring deferred
  Uses-with_cstring {ys = ys} s body k = record {
    at = λ u w h.
        let v = record w { live = bump w.live w.next; next = suc w.next } in
        unframed refs "free" w.next ys u (body v).1 (body v).0 (
          k.at (record u { live = bump u.live w.next }) v
            (record { live = λ i. ground (arith, h.live i); bad = h.bad }));
  }

  pub Uses-with_block :
      {ys : List ℕ} (free : String) (body : Go A)
      → Uses xs ys refs body
      → Uses xs ys refs (with_block free body)
  unfolding with_block deferred
  Uses-with_block {ys = ys} free body k = record {
    at = λ u w h.
        let v = record w { live = bump w.live w.next; next = suc w.next } in
        unframed refs free w.next ys u (body v).1 (body v).0 (
          k.at (record u { live = bump u.live w.next }) v
            (record { live = λ i. ground (arith, h.live i); bad = h.bad }));
  }

  Acquired-Used :
      (ys : List ℕ) (u w v : World) (r : Result (Option ℕ)) (op free : String) (body : ℕ → Go A)
      → Acquired w r v
      → Over u xs w
      → SameRefs xs ys
      → ((a : ℕ) → Uses xs ys refs (body a))
      → let m = continue r (or_new_error op) v in
        let n = continue m.0 (λ a. deferred (release free a) (body a)) m.1 in
        EndsOver u ys refs n.0 n.1
  unfolding deferred new_error pure
  Acquired-Used ys u w v (ok none) op free body q h p k =
      let g = Over-same p (Over-SameHeap q h) in record { live = g.live; bad = g.bad }
  Acquired-Used ys u w v (ok (some a)) op free body (l, b) h p k =
      unframed refs free a ys u (body a v).1 (body a v).0 (
        (k a).at (record u { live = bump u.live a }) v
          (record { live = λ i. ground (arith, l i, h.live i); bad = b ∙ h.bad }))
  Acquired-Used ys u w v (err e) op free body q h p k = elim q [ ]
  Acquired-Used ys u w v (panic s) op free body q h p k = elim q [ ]

  -- an object that is freed at the end, around a body that works with the others
  pub Uses-using :
      {ys : List ℕ} (f : String) (args : List Arg) (op free : String) (body : ℕ → Go A)
      → SameRefs xs ys
      → ((a : ℕ) → Uses xs ys refs (body a))
      → Uses xs ys refs (using f args op free body)
  unfolding using acquire_or ◌>>=◌
  Uses-using {ys = ys} f args op free body p k = record {
    at = λ u w h.
        Acquired-Used ys u w (acquire f args w).1 (acquire f args w).0 op free body
          (acquire-Acquired f args w) h p k;
  }

-- calls that cannot fail
pub Uses-clear_errors : {xs ys : List ℕ} → Uses xs ys (λ u. xs) clear_errors
unfolding clear_errors
Uses-clear_errors = record { at = λ u w h. record { live = h.live; bad = h.bad } }

pub Uses-call : {xs ys : List ℕ} (f : String) (args : List Arg) → Uses xs ys (λ r. xs) (call f args)
unfolding call
Uses-call f args = record { at = λ u w h. record { live = h.live; bad = h.bad } }

-- From nothing to nothing.
pub Balanced-Uses {ℓ} : {A : Type ℓ} (m : Go A) → Uses [] [] (λ x. []) m → Balanced m
Balanced-Uses {A = A} m p = record { at = λ w. go w (m w).1 (m w).0 (p.at w w (Over-start w)) }
  where
    go : (w v : World) (r : Result A) → EndsOver w [] (λ x. []) r v → UnlessPanic r (SameHeap w v)
    go w v (ok x) h = Over-nil h
    go w v (err e) h = Over-nil h
    go w v (panic s) h = tt

pub Uses-acquire_or :
    {xs : List ℕ} (f : String) (args : List Arg) (op : String)
    → Uses xs xs (λ a. a ∷ xs) (acquire_or f args op)
unfolding acquire_or
Uses-acquire_or f args op =
    Uses-acquire f args (or_new_error op) (Uses-new_error op λ i. refl) λ a. Uses-pure a λ i. refl

abbrev pub one_if : ℕ → List ℕ → Bool → List ℕ
one_if a xs b = if b then a ∷ xs else xs

-- one more reference on an object, if the call answers 1
pub Uses-up_ref : {xs ys : List ℕ} (f : String) (a : ℕ) → Uses xs ys (one_if a xs) (up_ref f a)
unfolding up_ref call
Uses-up_ref {xs = xs} {ys = ys} f a = record {
  at = λ u w h.
      let r = w.lib w.trace (record { fn = f; args = ptr a ∷ [] }) in
      taken u w (call f (ptr a ∷ []) w).1 (eq_ℕ r.rc 1) h (record { live = h.live; bad = h.bad });
}
  where
    taken :
        (u w v : World) (b : Bool)
        → Over u xs w
        → Over u xs v
        → let m : Result Bool × World =
            if b then (ok true, record v { live = bump v.live a }) else (ok false, v) in
          EndsOver u ys (one_if a xs) m.0 m.1
    taken u w v true h k = record { live = λ i. ground (arith, k.live i); bad = k.bad }
    taken u w v false h k = k

-- ===== src/Cgo/Drops.antt =====
-- A reference that a function gives up in its course: by freeing it, or by handing it over.
use ossl_go.Prelude.{ℕ, Bool, true, false, String, List, Option, none, some, arith, if◌then◌else◌}
use ossl_go.Errors.{Result, ok, err, panic}
use ossl_go.Cgo.{World, Go, Arg, Reply, ◌>>=◌, call, continue, acquire, free_now, hand_over}
use ossl_go.Cgo.Balance.{
  SameHeap, SameHeap-trans, UnlessPanic, Balanced, Acquired, acquire-Acquired, release-SameHeap,
}
use ossl_go.Cgo.Owns.{OneMore}

-- With one more reference on `a` than `u`, the function ends with those of `u`.
pub record Drops {ℓ} {A : Type ℓ} (a : ℕ) (m : Go A) : Type 0 where
  pub at : (u w : World) → OneMore u a w → UnlessPanic (m w).0 (SameHeap u (m w).1)

pub Drops-free_now : (a : ℕ) → Drops a (free_now a)
unfolding free_now
Drops-free_now a = record { at = λ u w h. release-SameHeap "free" a u w h.live h.bad }

pub Drops-hand_over : (a : ℕ) → Drops a (hand_over a)
unfolding hand_over
Drops-hand_over a = record {
  at = λ u w h. record {
    live = λ i. ground (arith, h.live i, h.live a);
    bad = ground (arith, h.live a);
  };
}

module _ {ℓ} {A : Type ℓ} where
  pub Drops-if :
      (a : ℕ) (b : Bool) (m n : Go A) → Drops a m → Drops a n → Drops a (if b then m else n)
  Drops-if a true m n p q = p
  Drops-if a false m n p q = q

module _ {κ} {B : Type κ} where
  ended :
      (u w' v : World) (r : Result B)
      → SameHeap u w'
      → UnlessPanic r (SameHeap w' v)
      → UnlessPanic r (SameHeap u v)
  ended u w' v (ok b) h s = SameHeap-trans h s
  ended u w' v (err e) h s = SameHeap-trans h s
  ended u w' v (panic m) h s = tt

module _ {ℓ κ} {A : Type ℓ} {B : Type κ} where
  -- the first part gives it up
  pub Drops-then :
      (a : ℕ) (m : Go A) (f : A → Go B) → Drops a m → ((x : A) → Balanced (f x)) → Drops a (m >>= f)
  unfolding ◌>>=◌
  Drops-then a m f p q = record { at = λ u w h. go u (m w).0 (m w).1 (p.at u w h) }
    where
      go :
          (u : World) (r : Result A) (w' : World)
          → UnlessPanic r (SameHeap u w')
          → UnlessPanic (continue r f w').0 (SameHeap u (continue r f w').1)
      go u (ok x) w' s = ended u w' (f x w').1 (f x w').0 s ((q x).at w')
      go u (err e) w' s = s
      go u (panic t) w' s = tt

-- A call that only makes a reply, and the rest gives the reference up.
pub Drops-call {ℓ} :
    {A : Type ℓ} (a : ℕ) (fn : String) (args : List Arg) (f : Reply → Go A)
    → ((r : Reply) → Drops a (f r))
    → Drops a (call fn args >>= f)
unfolding ◌>>=◌ call
Drops-call a fn args f k = record {
  at = λ u w h. (k _).at u _ (record { live = h.live; bad = h.bad });
}

module _ {ℓ} {A : Type ℓ} where
  acquired_then :
      (w : World) (r : Result (Option ℕ)) (w' : World) (k : Option ℕ → Go A)
      → Acquired w r w'
      → Balanced (k none)
      → ((a : ℕ) → Drops a (k (some a)))
      → UnlessPanic (continue r k w').0 (SameHeap w (continue r k w').1)
  acquired_then w (ok none) w' k q b d = ended w w' (k none w').1 (k none w').0 q (b.at w')
  acquired_then w (ok (some a)) w' k (l, e) b d = (d a).at w w' (record { live = l; bad = e })
  acquired_then w (err e) w' k q b d = elim q [ ]
  acquired_then w (panic s) w' k q b d = elim q [ ]

  -- An object that is acquired is given up by what follows.
  pub Balanced-acquire :
      (f : String) (args : List Arg) (k : Option ℕ → Go A)
      → Balanced (k none)
      → ((a : ℕ) → Drops a (k (some a)))
      → Balanced (acquire f args >>= k)
  unfolding ◌>>=◌
  Balanced-acquire f args k b d = record {
    at = λ w.
        acquired_then w (acquire f args w).0 (acquire f args w).1 k (acquire-Acquired f args w) b d;
  }

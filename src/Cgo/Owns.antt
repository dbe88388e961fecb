-- ===== src/Cgo/Owns.antt =====
-- A function that makes an object owns one more reference where it succeeds, and holds what it held
-- before where it returns an error.
use ossl_go.Prelude.{
  Bool, true, false, if◌then◌else◌, ℕ, suc, ◌≡◌, ◌∙◌, refl, sym, subst, String, List, Option, none,
  some, arith,
}
use ossl_go.Errors.{Result, Error, ok, err, panic}
use ossl_go.Cgo.{
  make_or, using, World, Go, Arg, pure, fail, ◌>>=◌, continue, deferred, release, acquire,
  or_new_error, acquire_or, new_error, owning, give_back, with_cstring, bump,
}
use ossl_go.Cgo.Balance.{
  SameHeap, SameHeap-refl, SameHeap-trans, UnlessPanic, Balanced, Acquired, acquire-Acquired,
  release-SameHeap,
}
use ossl_go.Cgo.Returns.{Ensures}

-- One more reference than `w` on `a`.
pub record OneMore (w : World) (a : ℕ) (w' : World) : Type 0 where
  pub live : (i : ℕ) → w'.live i ≡ bump w.live a i
  pub bad : w'.bad_frees ≡ w.bad_frees

abbrev pub Held {ℓ} : {A : Type ℓ} → (A → ℕ) → World → Result A → World → Type 0
Held addr w (ok x) w' = OneMore w (addr x) w'
Held addr w (err e) w' = SameHeap w w'
Held addr w (panic s) w' = Unit

pub record Owns {ℓ} {A : Type ℓ} (addr : A → ℕ) (m : Go A) : Type 0 where
  pub at : (w : World) → Held addr w (m w).0 (m w).1

OneMore-after : {u v w : World} {a : ℕ} → SameHeap u v → OneMore v a w → OneMore u a w
OneMore-after {a = a} p q = record {
  live = λ i. ground (arith, q.live i, p.live i);
  bad = q.bad ∙ p.bad;
}

module _ {ℓ} {A : Type ℓ} where
  Held-after :
      (addr : A → ℕ) (u v w : World) (r : Result A)
      → SameHeap u v
      → Held addr v r w
      → Held addr u r w
  Held-after addr u v w (ok x) p q = OneMore-after p q
  Held-after addr u v w (err e) p q = SameHeap-trans p q
  Held-after addr u v w (panic s) p q = tt

  Held-released :
      (f : String) (addr : A → ℕ) (w v : World) (a : ℕ) (r : Result A) (u : World)
      → ((i : ℕ) → v.live i ≡ bump w.live a i)
      → v.bad_frees ≡ w.bad_frees
      → Held addr v r u
      → Held addr w r (release f a u)
  Held-released f addr w v a (ok x) u l d h =
      let q =
        release-SameHeap f a (record w { live = bump w.live (addr x) }) u
          (λ i. ground (arith, h.live i, l i)) (h.bad ∙ d) in
      record { live = q.live; bad = q.bad }
  Held-released f addr w v a (err e) u l d h =
      release-SameHeap f a w u (λ i. h.live i ∙ l i) (h.bad ∙ d)
  Held-released f addr w v a (panic s) u l d h = tt

module _ {ℓ} {A : Type ℓ} {addr : A → ℕ} where
  pub Owns-fail : (e : Error) → Owns addr (fail e)
  unfolding fail
  Owns-fail e = record { at = λ w. SameHeap-refl w }

  pub Owns-bind {κ} :
      {B : Type κ} (m : Go B) (f : B → Go A)
      → Balanced m
      → ((b : B) → Owns addr (f b))
      → Owns addr (m >>= f)
  unfolding ◌>>=◌
  Owns-bind {B = B} m f p q = record { at = λ w. go w (m w).0 (m w).1 (p.at w) }
    where
      go :
          (w : World) (r : Result B) (w' : World)
          → UnlessPanic r (SameHeap w w')
          → Held addr w (continue r f w').0 (continue r f w').1
      go w (ok b) w' s = Held-after addr w w' (f b w').1 (f b w').0 s ((q b).at w')
      go w (err e) w' s = s
      go w (panic m) w' s = tt

  -- the reference is kept by the object, or given back
  made_or_released :
      (free : String) (a : ℕ) (w w' : World) (r : Result A) (u : World)
      → OneMore w a w'
      → UnlessPanic r (SameHeap w' u)
      → ((x : A) → r ≡ ok x → addr x ≡ a)
      → Held addr w r (give_back free a r u)
  made_or_released free a w w' (ok x) u h s k =
      let q : OneMore w a u = record { live = λ i. s.live i ∙ h.live i; bad = s.bad ∙ h.bad } in
      subst (λ (b : ℕ). OneMore w b u) (sym (k x refl)) q
  made_or_released free a w w' (err e) u h s k =
      release-SameHeap free a w u (λ i. s.live i ∙ h.live i) (s.bad ∙ h.bad)
  made_or_released free a w w' (panic s) u h q k = tt

  make-Held :
      (op free : String) (m : ℕ → Go A) (w : World) (r : Result (Option ℕ)) (w' : World)
      → Acquired w r w'
      → ((a : ℕ) → Balanced (m a))
      → ((a : ℕ) → Ensures (λ x. addr x ≡ a) (m a))
      → let n =
          continue
            (continue r (or_new_error op) w').0
            (λ a. owning free a (m a))
            (continue r (or_new_error op) w').1 in
        Held addr w n.0 n.1
  unfolding new_error pure owning
  make-Held op free m w (ok none) w' q b k = record { live = q.live; bad = q.bad }
  make-Held op free m w (ok (some a)) w' (l, d) b k =
      made_or_released free a w w' (m a w').0 (m a w').1 (record { live = l; bad = d })
        ((b a).at w') ((k a).at w')
  make-Held op free m w (err e) w' q b k = elim q [ ]
  make-Held op free m w (panic s) w' q b k = elim q [ ]

  pub Owns-make :
      (f : String) (args : List Arg) (op free : String) (m : ℕ → Go A)
      → ((a : ℕ) → Balanced (m a))
      → ((a : ℕ) → Ensures (λ x. addr x ≡ a) (m a))
      → Owns addr (acquire_or f args op >>= λ a. owning free a (m a))
  unfolding acquire_or ◌>>=◌
  Owns-make f args op free m b k = record {
    at = λ w.
        make-Held op free m w (acquire f args w).0 (acquire f args w).1 (acquire-Acquired f args w)
          b k;
  }

  pub Owns-with_cstring :
      (s : String) (body : Go A) → Owns addr body → Owns addr (with_cstring s body)
  unfolding with_cstring deferred
  Owns-with_cstring s body p = record {
    at = λ w.
        let v = record w { live = bump w.live w.next; next = suc w.next } in
        Held-released "free" addr w v w.next (body v).0 (body v).1 (λ i. refl) refl (p.at v);
  }

  pub Owns-new_error : (op : String) → Owns addr (new_error op)
  unfolding new_error
  Owns-new_error op = record { at = λ w. record { live = λ i. refl; bad = refl } }

  pub Owns-if : (b : Bool) (m n : Go A) → Owns addr m → Owns addr n → Owns addr (if b then m else n)
  Owns-if true m n p q = p
  Owns-if false m n p q = q

  using-Held :
      (op free : String) (body : ℕ → Go A) (w : World) (r : Result (Option ℕ)) (w' : World)
      → Acquired w r w'
      → ((a : ℕ) → Owns addr (body a))
      → let n =
          continue
            (continue r (or_new_error op) w').0
            (λ a. deferred (release free a) (body a))
            (continue r (or_new_error op) w').1 in
        Held addr w n.0 n.1
  unfolding new_error pure deferred
  using-Held op free body w (ok none) w' q k = record { live = q.live; bad = q.bad }
  using-Held op free body w (ok (some a)) w' (l, d) k =
      Held-released free addr w w' a (body a w').0 (body a w').1 l d ((k a).at w')
  using-Held op free body w (err e) w' q k = elim q [ ]
  using-Held op free body w (panic s) w' q k = elim q [ ]

  pub Owns-using :
      (f : String) (args : List Arg) (op free : String) (body : ℕ → Go A)
      → ((a : ℕ) → Owns addr (body a))
      → Owns addr (using f args op free body)
  unfolding using acquire_or ◌>>=◌
  Owns-using f args op free body k = record {
    at = λ w.
        using-Held op free body w (acquire f args w).0 (acquire f args w).1
          (acquire-Acquired f args w) k;
  }

  make_or-Held :
      (missing : Go A) (free : String) (m : ℕ → Go A) (w : World) (r : Result (Option ℕ))
      (w' : World)
      → Acquired w r w'
      → Owns addr missing
      → ((a : ℕ) → Balanced (m a))
      → ((a : ℕ) → Ensures (λ x. addr x ≡ a) (m a))
      → let n = continue r (make_or missing free m) w' in Held addr w n.0 n.1
  unfolding owning
  make_or-Held missing free m w (ok none) w' q o b k =
      Held-after addr w w' (missing w').1 (missing w').0 q (o.at w')
  make_or-Held missing free m w (ok (some a)) w' (l, d) o b k =
      made_or_released free a w w' (m a w').0 (m a w').1 (record { live = l; bad = d })
        ((b a).at w') ((k a).at w')
  make_or-Held missing free m w (err e) w' q o b k = elim q [ ]
  make_or-Held missing free m w (panic s) w' q o b k = elim q [ ]

  pub Owns-make_or :
      (f : String) (args : List Arg) (missing : Go A) (free : String) (m : ℕ → Go A)
      → Owns addr missing
      → ((a : ℕ) → Balanced (m a))
      → ((a : ℕ) → Ensures (λ x. addr x ≡ a) (m a))
      → Owns addr (acquire f args >>= make_or missing free m)
  unfolding ◌>>=◌
  Owns-make_or f args missing free m o b k = record {
    at = λ w.
        make_or-Held missing free m w (acquire f args w).0 (acquire f args w).1
          (acquire-Acquired f args w) o b k;
  }

  -- What follows keeps the object, and fails only in panics or not at all.
  pub Owns-pure_bind {κ} :
      {B : Type κ} (owner : B → ℕ) (m : Go B) (f : B → A)
      → Owns owner m
      → ((b : B) → addr (f b) ≡ owner b)
      → Owns addr (m >>= λ b. pure (f b))
  unfolding ◌>>=◌ pure
  Owns-pure_bind {B = B} owner m f p k = record { at = λ w. go w (m w).0 (m w).1 (p.at w) }
    where
      go :
          (w : World) (r : Result B) (w' : World)
          → Held owner w r w'
          → Held addr w (continue r (λ b. pure (f b)) w').0 (continue r (λ b. pure (f b)) w').1
      go w (ok b) w' h = subst (λ (a : ℕ). OneMore w a w') (sym (k b)) h
      go w (err e) w' h = h
      go w (panic s) w' h = tt

  -- An object that is made and closed leaves nothing behind.
  pub Balanced-close {κ} :
      {B : Type κ} (free : String) (m : Go A) (close : A → Go B)
      → Owns addr m
      → ((w : World) (x : A)
          → (m w).0 ≡ ok x
          → (v : World) → (close x v).1 ≡ release free (addr x) v)
      → Balanced (m >>= close)
  unfolding ◌>>=◌
  Balanced-close {B = B} free m close p k = record { at = λ w. go w (m w).0 (m w).1 (p.at w) (k w) }
    where
      same_or_panic : (w u : World) (r : Result B) → SameHeap w u → UnlessPanic r (SameHeap w u)
      same_or_panic w u (ok x) s = s
      same_or_panic w u (err e) s = s
      same_or_panic w u (panic m) s = tt

      go :
          (w : World) (r : Result A) (w' : World)
          → Held addr w r w'
          → ((x : A) → r ≡ ok x → (v : World) → (close x v).1 ≡ release free (addr x) v)
          → UnlessPanic (continue r close w').0 (SameHeap w (continue r close w').1)
      go w (ok x) w' h c = same_or_panic w (close x w').1 (close x w').0 (
          subst (SameHeap w) (sym (c x refl w')) (release-SameHeap free (addr x) w w' h.live h.bad))
      go w (err e) w' h c = h
      go w (panic s) w' h c = tt

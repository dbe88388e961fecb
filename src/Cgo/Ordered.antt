-- ===== src/Cgo/Ordered.antt =====
-- What a function that succeeds was answered by several calls, one after the other: the rules by which
-- the facts of the parts, in the order of the code, are those of the whole.
use ossl_go.Prelude.{
  suc, ap, arith, ◌≡◌, refl, sym, ℕ, Bool, true, false, String, List, [], ◌∷◌, if◌then◌else◌, subst,
}
use ossl_go.Prelude.Int.{is_nonpos}
use ossl_go.Errors.{Result, Error, ok, err, panic}
use ossl_go.Cgo.{
  World, Go, Arg, bump, Call, Reply, pure, fail, ◌>>=◌, continue, call, deferred, release, acquire,
  acquire_or, using, with_cstring, new_error, call_pos,
}
use ossl_go.Cgo.Trace.{
  Grows, Grows-trans, Asked, here, same, Asked-after, Later, Extends, Extends-bind,
  Extends-call_pos, Extends-acquire, Extends-or_new_error, release-Later,
}
use ossl_go.Cgo.Confirms.{Confirms, Asked-weaken}

-- A call of `fn` that was answered so that `holds`.
pub record Demand : Type 1 where
  pub fn : String
  pub holds : List Arg → Reply → Type 0

-- Since the trace `t` each of the calls was made, the first in the list before the second, and so on.
abbrev pub AskedInOrder : (List Call → Call → Reply) → List Demand → List Call → List Call → Type 0
AskedInOrder lib [] t u = Grows t u
AskedInOrder lib (d ∷ ds) t u =
    (s : List Call) × Asked lib d.fn d.holds t s × AskedInOrder lib ds s u

AskedInOrder-after :
    (lib : List Call → Call → Reply) (ds : List Demand) (s t u : List Call)
    → Grows s t
    → AskedInOrder lib ds t u
    → AskedInOrder lib ds s u
AskedInOrder-after lib [] s t u g q = Grows-trans g q
AskedInOrder-after lib (d ∷ ds) s t u g (v, a, q) = (v, Asked-after g a, q)

AskedInOrder-before :
    (lib : List Call → Call → Reply) (ds : List Demand) (s t u : List Call)
    → AskedInOrder lib ds s t
    → Grows t u
    → AskedInOrder lib ds s u
AskedInOrder-before lib [] s t u q g = Grows-trans q g
AskedInOrder-before lib (d ∷ ds) s t u (v, a, q) g = (v, a, AskedInOrder-before lib ds v t u q g)

-- If `m` succeeds, then for some `i` the calls of `ds i` were made in that order.
pub record Ordered {ℓ} {A : Type ℓ} {I : Type 0} (ds : I → List Demand) (m : Go A) : Type ℓ where
  pub at :
      (w : World) (a : A)
      → (m w).0 ≡ ok a
      → (i : I) × AskedInOrder w.lib (ds i) w.trace (m w).1.trace

-- Nothing more was asked.
abbrev pub nothing : Unit {0} → List Demand
nothing _ = []

pub Ordered-nothing {ℓ} : {A : Type ℓ} (m : Go A) → Extends m → Ordered nothing m
Ordered-nothing m e = record { at = λ w a h. (tt, (e.at w).trace) }

-- One last call.
pub Ordered-last {ℓ} :
    {A : Type ℓ} {d : Demand} (m : Go A)
    → Extends m
    → Confirms d.fn d.holds m
    → Ordered (λ (_ : Unit {0}). d ∷ []) m
Ordered-last m e c = record { at = λ w a h. (tt, (_, c.at w a h, same)) }

module _ {I : Type 0} {ds : I → List Demand} where
  module _ {ℓ} {A : Type ℓ} where
    pub Ordered-fail : (e : Error) → Ordered ds (fail {A = A} e)
    unfolding fail
    Ordered-fail e = record { at = λ w a h. cc }

    pub Ordered-if :
        (b : Bool) (m n : Go A) → Ordered ds m → Ordered ds n → Ordered ds (if b then m else n)
    Ordered-if true m n p q = p
    Ordered-if false m n p q = q

    pub Ordered-deferred :
        (cleanup : World → World) (body : Go A)
        → ((w : World) → Later w (cleanup w))
        → Ordered ds body
        → Ordered ds (deferred cleanup body)
    unfolding deferred
    Ordered-deferred cleanup body c b = record {
      at = λ w a h.
          let (i, q) = b.at w a h in (i, AskedInOrder-before _ (ds i) _ _ _ q (c (body w).1).trace);
    }

    pub Ordered-choose :
        {J : Type 0} (j : J → I) (m : Go A) → Ordered (λ i. ds (j i)) m → Ordered ds m
    Ordered-choose j m k = record { at = λ w a h. let (i, q) = k.at w a h in (j i, q) }

  module _ {ℓ κ} {A : Type ℓ} {B : Type κ} where
    found_after :
        (w : World) (r : Result A) (w' : World) (f : A → Go B) (b : B)
        → Later w w'
        → ((a : A) → r ≡ ok a → Ordered ds (f a))
        → (continue r f w').0 ≡ ok b
        → (i : I) × AskedInOrder w.lib (ds i) w.trace (continue r f w').1.trace
    found_after w (ok a) w' f b l k h =
        let (i, q) = (k a refl).at w' b h in
        (
          i,
          AskedInOrder-after _ (ds i) _ _ _ l.trace
              (subst (λ lib. AskedInOrder lib (ds i) w'.trace (f a w').1.trace) l.lib q),
        )
    found_after w (err e) w' f b l k h = cc
    found_after w (panic s) w' f b l k h = cc

    pub Ordered-bind_of :
        (m : Go A) (f : A → Go B)
        → Extends m
        → ((w : World) (a : A) → (m w).0 ≡ ok a → Ordered ds (f a))
        → Ordered ds (m >>= f)
    unfolding ◌>>=◌
    Ordered-bind_of m f e k = record {
      at = λ w b h. found_after w (m w).0 (m w).1 f b (e.at w) (k w) h;
    }

    pub Ordered-bind :
        (m : Go A) (f : A → Go B) → Extends m → ((a : A) → Ordered ds (f a)) → Ordered ds (m >>= f)
    Ordered-bind m f e k = Ordered-bind_of m f e λ w a h. k a

  module _ {ℓ} {A : Type ℓ} where
    pub Ordered-using :
        (f : String) (args : List Arg) (op free : String) (body : ℕ → Go A)
        → ((a : ℕ) → Ordered ds (body a))
        → Ordered ds (using f args op free body)
    unfolding using
    Ordered-using f args op free body k =
        Ordered-bind (acquire_or f args op) _
          (Extends-bind (acquire f args) _ (Extends-acquire f args) (Extends-or_new_error op))
          λ a. Ordered-deferred (release free a) (body a) (release-Later free a) (k a)

    pub Ordered-with_cstring :
        (s : String) (body : Go A) → Ordered ds body → Ordered ds (with_cstring s body)
    unfolding with_cstring
    Ordered-with_cstring s body k = record {
      at = λ w a h.
          let d = Ordered-deferred (release "free" w.next) body (release-Later "free" w.next) k in
          d.at (record w { live = bump w.live w.next; next = suc w.next }) a h;
    }

-- The first part makes the first call, and the rest the others.
module _ {ℓ κ} {A : Type ℓ} {B : Type κ} (d : Demand) (ds : List Demand) where
  found_then :
      (w : World) (r : Result A) (w' : World) (f : A → Go B) (b : B)
      → w'.lib ≡ w.lib
      → ((a : A) → r ≡ ok a → Asked w.lib d.fn d.holds w.trace w'.trace)
      → ((a : A) → Ordered (λ (_ : Unit {0}). ds) (f a))
      → (continue r f w').0 ≡ ok b
      → (i : Unit {0}) × AskedInOrder w.lib (d ∷ ds) w.trace (continue r f w').1.trace
  found_then w (ok a) w' f b l c k h = (
    tt,
    (
      w'.trace,
      c a refl,
      subst (λ lib. AskedInOrder lib ds w'.trace (f a w').1.trace) l ((k a).at w' b h).1,
    ),
  )
  found_then w (err e) w' f b l c k h = cc
  found_then w (panic s) w' f b l c k h = cc

  pub Ordered-then :
      (m : Go A) (f : A → Go B)
      → Extends m
      → Confirms d.fn d.holds m
      → ((a : A) → Ordered (λ (_ : Unit {0}). ds) (f a))
      → Ordered (λ (_ : Unit {0}). d ∷ ds) (m >>= f)
  unfolding ◌>>=◌
  Ordered-then m f e c k = record {
    at = λ w b h. found_then w (m w).0 (m w).1 f b (e.at w).lib (c.at w) k h;
  }

-- A call with these arguments, of which `n` is read and which was answered positively.
abbrev pub Replied : List Arg → ℕ → List Arg → Reply → Type 0
Replied args n args' r = (args' ≡ args) × (r.len ≡ n) × (is_nonpos r.rc ≡ false)

call_pos-Replied :
    (f : String) (args : List Arg) (op : String) (w : World) (r : Reply)
    → (call_pos f args op w).0 ≡ ok r
    → Asked w.lib f (Replied args r.len) w.trace (call_pos f args op w).1.trace
unfolding call_pos ◌>>=◌ call pure new_error
call_pos-Replied f args op w a h =
    let r = w.lib w.trace (record { fn = f; args = args }) in
    let e : is_nonpos r.rc ≡ false = ground arith in
    let same_reply : r ≡ a = ground arith in
    let t : (call_pos f args op w).1.trace ≡ record { fn = f; args = args } ∷ w.trace =
      ground arith in
    subst (Asked w.lib f _ w.trace) (sym t) (here args same (refl, ap (λ x. x.len) same_reply, e))

-- The same for a call whose answer the rest depends on.
module _ {κ} {B : Type κ} (f : String) (args : List Arg) (op : String)
    (rest : ℕ → List Demand) where
  found_reply :
      (w : World) (r : Result Reply) (w' : World) (g : Reply → Go B) (b : B)
      → w'.lib ≡ w.lib
      → ((a : Reply) → r ≡ ok a → Asked w.lib f (Replied args a.len) w.trace w'.trace)
      → ((a : Reply) → Ordered (λ (_ : Unit {0}). rest a.len) (g a))
      → (continue r g w').0 ≡ ok b
      → (n : ℕ) × AskedInOrder w.lib
          (record { fn = f; holds = Replied args n } ∷ rest n)
          w.trace
          (continue r g w').1.trace
  found_reply w (ok a) w' g b l c k h = (
    a.len,
    (
      w'.trace,
      c a refl,
      subst (λ lib. AskedInOrder lib (rest a.len) w'.trace (g a w').1.trace) l ((k a).at w' b h).1,
    ),
  )
  found_reply w (err e) w' g b l c k h = cc
  found_reply w (panic s) w' g b l c k h = cc

  pub Ordered-call_pos :
      (g : Reply → Go B)
      → ((r : Reply) → Ordered (λ (_ : Unit {0}). rest r.len) (g r))
      → Ordered (λ n. record { fn = f; holds = Replied args n } ∷ rest n) (call_pos f args op >>= g)
  unfolding ◌>>=◌
  Ordered-call_pos g k = record {
    at = λ w b h.
        found_reply w (call_pos f args op w).0 (call_pos f args op w).1 g b
          ((Extends-call_pos f args op).at w).lib (call_pos-Replied f args op w) k h;
  }

-- The first call with less said of it.
pub Ordered-weaken {ℓ} :
    {A : Type ℓ} {I : Type 0} {fn : String} {P Q : I → List Arg → Reply → Type 0}
    {rest : I → List Demand} (m : Go A)
    → ((i : I) (args : List Arg) (r : Reply) → P i args r → Q i args r)
    → Ordered (λ i. record { fn = fn; holds = P i } ∷ rest i) m
    → Ordered (λ i. record { fn = fn; holds = Q i } ∷ rest i) m
Ordered-weaken m k c = record {
  at = λ w a h.
      let (i, told) = c.at w a h in
      let (s, asked, others) = told in (i, (s, Asked-weaken (k i) asked, others));
}

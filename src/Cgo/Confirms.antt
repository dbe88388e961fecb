-- ===== src/Cgo/Confirms.antt =====
-- What a function that succeeds was answered: the rules by which a part's fact is one of the whole.
use ossl_go.Prelude.{
  ℕ, suc, arith, ◌≡◌, refl, sym, Bool, true, false, String, List, ◌∷◌, if◌then◌else◌, subst,
}
use ossl_go.Prelude.Int.{pos, eq_ℕ, is_nonpos}
use ossl_go.Errors.{Result, Error, ok, err, panic}
use ossl_go.Cgo.{
  World, Go, Arg, bump, Call, Reply, pure, fail, abort, ◌>>=◌, continue, call, deferred, release,
  acquire, acquire_or, using, with_cstring, new_error, reject_with, call_one, call_pos,
}
use ossl_go.Cgo.Trace.{
  more, Grows, Asked, here, later, same, Asked-after, Asked-before, Later, Extends, Extends-bind,
  Extends-acquire, Extends-or_new_error, release-Later,
}

-- If `m` succeeds, then one of the calls of `fn` that it made was answered so that `P` holds.
pub record Confirms {ℓ} {A : Type ℓ} (fn : String) (P : List Arg → Reply → Type 0) (m : Go A)
    : Type ℓ where
  pub at : (w : World) (a : A) → (m w).0 ≡ ok a → Asked w.lib fn P w.trace (m w).1.trace

module _ {fn : String} {P : List Arg → Reply → Type 0} where
  module _ {ℓ} {A : Type ℓ} where
    pub Confirms-fail : (e : Error) → Confirms fn P (fail {A = A} e)
    unfolding fail
    Confirms-fail e = record { at = λ w a h. cc }

    pub Confirms-new_error : (op : String) → Confirms fn P (new_error {A = A} op)
    unfolding new_error
    Confirms-new_error op = record { at = λ w a h. cc }

    pub Confirms-abort : (s : String) → Confirms fn P (abort {A = A} s)
    unfolding abort
    Confirms-abort s = record { at = λ w a h. cc }

    pub Confirms-reject_with : (op : String) → Confirms fn P (reject_with {A = A} op)
    unfolding reject_with
    Confirms-reject_with op = record { at = λ w a h. cc }

    pub Confirms-if :
        (b : Bool) (m n : Go A)
        → Confirms fn P m
        → Confirms fn P n
        → Confirms fn P (if b then m else n)
    Confirms-if true m n p q = p
    Confirms-if false m n p q = q

    -- each branch may use its condition
    pub Confirms-when :
        (b : Bool) (m n : Go A)
        → (b ≡ true → Confirms fn P m)
        → (b ≡ false → Confirms fn P n)
        → Confirms fn P (if b then m else n)
    Confirms-when true m n p q = p refl
    Confirms-when false m n p q = q refl

    pub Confirms-deferred :
        (cleanup : World → World) (body : Go A)
        → ((w : World) → Later w (cleanup w))
        → Confirms fn P body
        → Confirms fn P (deferred cleanup body)
    unfolding deferred
    Confirms-deferred cleanup body c b = record {
      at = λ w a h. Asked-before (b.at w a h) (c (body w).1).trace;
    }

  module _ {ℓ κ} {A : Type ℓ} {B : Type κ} where
    -- the rest confirms it
    found_after :
        (w : World) (r : Result A) (w' : World) (f : A → Go B) (b : B)
        → Later w w'
        → ((a : A) → Confirms fn P (f a))
        → (continue r f w').0 ≡ ok b
        → Asked w.lib fn P w.trace (continue r f w').1.trace
    found_after w (ok a) w' f b l k h =
        Asked-after l.trace
          (subst (λ lib. Asked lib fn P w'.trace (f a w').1.trace) l.lib ((k a).at w' b h))
    found_after w (err e) w' f b l k h = cc
    found_after w (panic s) w' f b l k h = cc

    found_of :
        (w : World) (r : Result A) (w' : World) (f : A → Go B) (b : B)
        → Later w w'
        → ((a : A) → r ≡ ok a → Confirms fn P (f a))
        → (continue r f w').0 ≡ ok b
        → Asked w.lib fn P w.trace (continue r f w').1.trace
    found_of w (ok a) w' f b l k h =
        Asked-after l.trace
          (subst (λ lib. Asked lib fn P w'.trace (f a w').1.trace) l.lib ((k a refl).at w' b h))
    found_of w (err e) w' f b l k h = cc
    found_of w (panic s) w' f b l k h = cc

    pub Confirms-bind :
        (m : Go A) (f : A → Go B)
        → Extends m
        → ((a : A) → Confirms fn P (f a))
        → Confirms fn P (m >>= f)
    unfolding ◌>>=◌
    Confirms-bind m f e k = record { at = λ w b h. found_after w (m w).0 (m w).1 f b (e.at w) k h }

    pub Confirms-bind_of :
        (m : Go A) (f : A → Go B)
        → Extends m
        → ((w : World) (a : A) → (m w).0 ≡ ok a → Confirms fn P (f a))
        → Confirms fn P (m >>= f)
    unfolding ◌>>=◌
    Confirms-bind_of m f e k = record {
      at = λ w b h. found_of w (m w).0 (m w).1 f b (e.at w) (k w) h;
    }

    -- the first part confirms it
    found_before :
        (w : World) (r : Result A) (w' : World) (f : A → Go B) (b : B)
        → ((a : A) → r ≡ ok a → Asked w.lib fn P w.trace w'.trace)
        → ((a : A) → Extends (f a))
        → (continue r f w').0 ≡ ok b
        → Asked w.lib fn P w.trace (continue r f w').1.trace
    found_before w (ok a) w' f b k e h = Asked-before (k a refl) ((e a).at w').trace
    found_before w (err x) w' f b k e h = cc
    found_before w (panic s) w' f b k e h = cc

    pub Confirms-bind_left :
        (m : Go A) (f : A → Go B)
        → Confirms fn P m
        → ((a : A) → Extends (f a))
        → Confirms fn P (m >>= f)
    unfolding ◌>>=◌
    Confirms-bind_left m f k e = record {
      at = λ w b h. found_before w (m w).0 (m w).1 f b (k.at w) e h;
    }

  module _ {ℓ} {A : Type ℓ} where
    pub Confirms-using :
        (f : String) (args : List Arg) (op free : String) (body : ℕ → Go A)
        → ((a : ℕ) → Confirms fn P (body a))
        → Confirms fn P (using f args op free body)
    unfolding using
    Confirms-using f args op free body k =
        Confirms-bind (acquire_or f args op) _
          (Extends-bind (acquire f args) _ (Extends-acquire f args) (Extends-or_new_error op))
          λ a. Confirms-deferred (release free a) (body a) (release-Later free a) (k a)

    pub Confirms-with_cstring :
        (s : String) (body : Go A) → Confirms fn P body → Confirms fn P (with_cstring s body)
    unfolding with_cstring
    Confirms-with_cstring s body k = record {
      at = λ w a h.
          let d = Confirms-deferred (release "free" w.next) body (release-Later "free" w.next) k in
          d.at (record w { live = bump w.live w.next; next = suc w.next }) a h;
    }

-- A call that must answer 1 was answered 1, and one that must answer a positive number was.
pub Confirms-call_one :
    (f : String) (args : List Arg) (op : String)
    → Confirms f (λ args' r. (args' ≡ args) × (r.rc ≡ pos 1)) (call_one f args op)
unfolding call_one ◌>>=◌ call pure new_error
Confirms-call_one f args op = record {
  at = λ w a h.
      let r = w.lib w.trace (record { fn = f; args = args }) in
      let e : r.rc ≡ pos 1 = ground arith in
      let t : (call_one f args op w).1.trace ≡ record { fn = f; args = args } ∷ w.trace =
        ground arith in
      subst (Asked w.lib f _ w.trace) (sym t) (here args same (refl, e));
}

pub Confirms-call_pos :
    (f : String) (args : List Arg) (op : String)
    → Confirms f (λ args' r. (args' ≡ args) × (is_nonpos r.rc ≡ false)) (call_pos f args op)
unfolding call_pos ◌>>=◌ call pure new_error
Confirms-call_pos f args op = record {
  at = λ w a h.
      let r = w.lib w.trace (record { fn = f; args = args }) in
      let e : is_nonpos r.rc ≡ false = ground arith in
      let t : (call_pos f args op w).1.trace ≡ record { fn = f; args = args } ∷ w.trace =
        ground arith in
      subst (Asked w.lib f _ w.trace) (sym t) (here args same (refl, e));
}

pub Asked-weaken :
    {lib : List Call → Call → Reply} {fn : String} {P Q : List Arg → Reply → Type 0}
    {t u : List Call}
    → ((args : List Arg) (r : Reply) → P args r → Q args r)
    → Asked lib fn P t u
    → Asked lib fn Q t u
Asked-weaken k (here args g h) = here args g (k args _ h)
Asked-weaken k (later c q) = later c (Asked-weaken k q)

pub Confirms-weaken {ℓ} :
    {A : Type ℓ} {fn : String} {P Q : List Arg → Reply → Type 0} (m : Go A)
    → ((args : List Arg) (r : Reply) → P args r → Q args r)
    → Confirms fn P m
    → Confirms fn Q m
Confirms-weaken m k c = record { at = λ w a h. Asked-weaken k (c.at w a h) }

abbrev pub AnsweredOne : List Arg → List Arg → Reply → Type 0
AnsweredOne args args' r = (args' ≡ args) × (r.rc ≡ pos 1)

-- A call that must answer 1, with what follows it then and what follows it otherwise.
module _ {ℓ} {A : Type ℓ} (f : String) (args : List Arg) (good : Reply → Go A) (bad : Go A)
    (e : (r : Reply) → Extends (good r)) where
  answered :
      (w v : World) (b : Bool) (a : A)
      → v.lib ≡ w.lib
      → v.trace ≡ record { fn = f; args = args } ∷ w.trace
      → (b ≡ true → (w.lib w.trace (record { fn = f; args = args })).rc ≡ pos 1)
      → Confirms f (AnsweredOne args) bad
      → ((if b then good (w.lib w.trace (record { fn = f; args = args })) else bad) v).0 ≡ ok a
      → Asked w.lib f
          (AnsweredOne args)
          w.trace
          ((if b then good (w.lib w.trace (record { fn = f; args = args })) else bad) v).1.trace
  answered w v true a l t one k h =
      Asked-before
        (subst (Asked w.lib f (AnsweredOne args) w.trace) (sym t) (here args same (refl, one refl)))
        ((e _).at v).trace
  answered w v false a l t one k h =
      Asked-after (subst (Grows w.trace) (sym t) (more _ same))
        (subst (λ lib. Asked lib f (AnsweredOne args) v.trace (bad v).1.trace) l (k.at v a h))

  pub Confirms-checked :
      Confirms f (AnsweredOne args) bad
      → Confirms f (AnsweredOne args) (call f args >>= λ r. if eq_ℕ r.rc 1 then good r else bad)
  unfolding call ◌>>=◌
  Confirms-checked k = record {
    at = λ w a h.
        answered w _ (eq_ℕ (w.lib w.trace (record { fn = f; args = args })).rc 1) a refl refl
          (λ o. ground arith) k h;
  }

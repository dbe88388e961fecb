-- ===== src/Cgo/Trace.antt =====
-- What a function asked libcrypto, and what it was answered: every function only adds calls to the
-- trace, and a function confirms a fact if it succeeds only after a call was answered with it.
use ossl_go.Prelude.{
  ℕ, suc, arith, ◌≡◌, refl, ◌∙◌, sym, Bool, true, false, String, List, [], ◌∷◌, Option, none, some,
  if◌then◌else◌, subst,
}
use ossl_go.Prelude.Int.{eq_ℕ, is_nonpos}
use ossl_go.Errors.{Result, Error, ok, err, panic, Refusal}
use ossl_go.Cgo.{
  World, Go, Arg, ptr, bump, Call, Reply, pure, fail, abort, lift, ◌>>=◌, continue, call, attempt,
  deferred, release, acquire, acquire_or, or_new_error, using, with_cstring, new_error, reject_with,
  held, using_or_else, clear_errors, call_one, call_pos, new_error_if, refuse_if,
}

-- The second trace is the first with later calls in front of it.
pub data Grows (t : List Call) : List Call → Type 0 where
  same : Grows t t
  more : {u : List Call} (c : Call) → Grows t u → Grows t (c ∷ u)

pub Grows-trans : {s t u : List Call} → Grows s t → Grows t u → Grows s u
Grows-trans p same = p
Grows-trans p (more c q) = more c (Grows-trans p q)

-- Among the calls since the trace `t`, one of `fn` was answered so that `P` holds.
pub data Asked (lib : List Call → Call → Reply) (fn : String) (P : List Arg → Reply → Type 0)
    (t : List Call) : List Call → Type 0 where
  here :
      {u : List Call} (args : List Arg)
      → Grows t u
      → P args (lib u (record { fn = fn; args = args }))
      → Asked lib fn P t (record { fn = fn; args = args } ∷ u)
  later : {u : List Call} (c : Call) → Asked lib fn P t u → Asked lib fn P t (c ∷ u)

module _ {lib : List Call → Call → Reply} {fn : String} {P : List Arg → Reply → Type 0} where
  pub Asked-after : {s t u : List Call} → Grows s t → Asked lib fn P t u → Asked lib fn P s u
  Asked-after p (here args q h) = here args (Grows-trans p q) h
  Asked-after p (later c q) = later c (Asked-after p q)

  pub Asked-before : {s t u : List Call} → Asked lib fn P s t → Grows t u → Asked lib fn P s u
  Asked-before p same = p
  Asked-before p (more c q) = later c (Asked-before p q)

-- From `w` to `w'`: the same library, and a longer trace.
pub record Later (w w' : World) : Type 0 where
  pub lib : w'.lib ≡ w.lib
  pub trace : Grows w.trace w'.trace

pub Later-refl : (w : World) → Later w w
Later-refl w = record { lib = refl; trace = same }

pub Later-trans : {u v w : World} → Later u v → Later v w → Later u w
Later-trans p q = record { lib = q.lib ∙ p.lib; trace = Grows-trans p.trace q.trace }

pub record Extends {ℓ} {A : Type ℓ} (m : Go A) : Type 0 where
  pub at : (w : World) → Later w (m w).1

module _ {ℓ} {A : Type ℓ} where
  pub Extends-pure : (a : A) → Extends (pure a)
  unfolding pure
  Extends-pure a = record { at = Later-refl }

  pub Extends-fail : (e : Error) → Extends (fail {A = A} e)
  unfolding fail
  Extends-fail e = record { at = Later-refl }

  pub Extends-abort : (s : String) → Extends (abort {A = A} s)
  unfolding abort
  Extends-abort s = record { at = Later-refl }

  pub Extends-lift : (r : Result A) → Extends (lift r)
  unfolding lift
  Extends-lift r = record { at = Later-refl }

  pub Extends-new_error : (op : String) → Extends (new_error {A = A} op)
  unfolding new_error
  Extends-new_error op = record { at = λ w. record { lib = refl; trace = same } }

  pub Extends-reject_with : (op : String) → Extends (reject_with {A = A} op)
  unfolding reject_with
  Extends-reject_with op = record { at = λ w. record { lib = refl; trace = same } }

  pub Extends-if : (b : Bool) (m n : Go A) → Extends m → Extends n → Extends (if b then m else n)
  Extends-if true m n p q = p
  Extends-if false m n p q = q

  pub Extends-attempt : (m : Go A) → Extends m → Extends (attempt m)
  unfolding attempt
  Extends-attempt m p = record { at = p.at }

module _ {ℓ κ} {A : Type ℓ} {B : Type κ} where
  continue-Later :
      (w : World) (r : Result A) (w' : World) (f : A → Go B)
      → Later w w'
      → ((a : A) → Extends (f a))
      → Later w (continue r f w').1
  continue-Later w (ok a) w' f h k = Later-trans h ((k a).at w')
  continue-Later w (err e) w' f h k = h
  continue-Later w (panic s) w' f h k = h

  pub Extends-bind :
      (m : Go A) (f : A → Go B) → Extends m → ((a : A) → Extends (f a)) → Extends (m >>= f)
  unfolding ◌>>=◌
  Extends-bind m f p q = record { at = λ w. continue-Later w (m w).0 (m w).1 f (p.at w) q }

pub Extends-call : (f : String) (args : List Arg) → Extends (call f args)
unfolding call
Extends-call f args = record { at = λ w. record { lib = refl; trace = more _ same } }

one_more : (w w' : World) (c : Call) → w'.lib ≡ w.lib → w'.trace ≡ c ∷ w.trace → Later w w'
one_more w w' c l t = record { lib = l; trace = subst (Grows w.trace) (sym t) (more c same) }

pub release-Later : (f : String) (a : ℕ) (w : World) → Later w (release f a w)
unfolding release
release-Later f a w =
    one_more w (release f a w) (record { fn = f; args = ptr a ∷ [] }) (ground arith) (ground arith)

pub Extends-acquire : (f : String) (args : List Arg) → Extends (acquire f args)
unfolding acquire
Extends-acquire f args = record {
  at = λ w.
      one_more w (acquire f args w).1 (record { fn = f; args = args }) (ground arith)
        (ground arith);
}

pub Extends-clear_errors : Extends clear_errors
unfolding clear_errors
Extends-clear_errors = record { at = λ w. record { lib = refl; trace = same } }

pub Extends-or_new_error : (op : String) (o : Option ℕ) → Extends (or_new_error op o)
Extends-or_new_error op none = Extends-new_error op
Extends-or_new_error op (some a) = Extends-pure a

module _ {ℓ} {A : Type ℓ} where
  pub Extends-deferred :
      (cleanup : World → World) (body : Go A)
      → ((w : World) → Later w (cleanup w))
      → Extends body
      → Extends (deferred cleanup body)
  unfolding deferred
  Extends-deferred cleanup body c b = record { at = λ w. Later-trans (b.at w) (c (body w).1) }

  pub Extends-using :
      (f : String) (args : List Arg) (op free : String) (body : ℕ → Go A)
      → ((a : ℕ) → Extends (body a))
      → Extends (using f args op free body)
  unfolding using
  Extends-using f args op free body k =
      Extends-bind (acquire_or f args op) _
        (Extends-bind (acquire f args) _ (Extends-acquire f args) (Extends-or_new_error op))
        λ a. Extends-deferred (release free a) (body a) (release-Later free a) (k a)

  Extends-held :
      (missing : Go A) (free : String) (body : ℕ → Go A)
      → Extends missing
      → ((a : ℕ) → Extends (body a))
      → (o : Option ℕ) → Extends (held missing free body o)
  Extends-held missing free body m k none = m
  Extends-held missing free body m k (some a) =
      Extends-deferred (release free a) (body a) (release-Later free a) (k a)

  pub Extends-using_or_else :
      (f : String) (args : List Arg) (missing : Go A) (free : String) (body : ℕ → Go A)
      → Extends missing
      → ((a : ℕ) → Extends (body a))
      → Extends (using_or_else f args missing free body)
  unfolding using_or_else
  Extends-using_or_else f args missing free body m k =
      Extends-bind (acquire f args) _ (Extends-acquire f args) (Extends-held missing free body m k)

  pub Extends-with_cstring :
      (s : String) (body : Go A) → Extends body → Extends (with_cstring s body)
  unfolding with_cstring
  Extends-with_cstring s body k = record {
    at = λ w.
        let v = record w { live = bump w.live w.next; next = suc w.next } in
        let d = Extends-deferred (release "free" w.next) body (release-Later "free" w.next) k in
        Later-trans (record { lib = refl; trace = same }) (d.at v);
  }

pub Extends-call_one : (f : String) (args : List Arg) (op : String) → Extends (call_one f args op)
unfolding call_one
Extends-call_one f args op =
    Extends-bind (call f args) _ (Extends-call f args)
      λ r. Extends-if (eq_ℕ r.rc 1) _ _ (Extends-pure r) (Extends-new_error op)

pub Extends-call_pos : (f : String) (args : List Arg) (op : String) → Extends (call_pos f args op)
unfolding call_pos
Extends-call_pos f args op =
    Extends-bind (call f args) _ (Extends-call f args)
      λ r. Extends-if (is_nonpos r.rc) _ _ (Extends-new_error op) (Extends-pure r)

pub Extends-new_error_if : (b : Bool) (op : String) → Extends (new_error_if b op)
Extends-new_error_if true op = Extends-new_error op
Extends-new_error_if false op = Extends-pure tt

pub Extends-refuse_if : (b : Bool) (r : Refusal) → Extends (refuse_if b r)
Extends-refuse_if true r = Extends-fail _
Extends-refuse_if false r = Extends-pure tt

pub ruleset extends_rules = (
  Extends-pure, Extends-fail, Extends-abort, Extends-lift, Extends-new_error, Extends-if,
  Extends-attempt, Extends-bind, Extends-call, Extends-acquire, Extends-clear_errors, Extends-using,
  Extends-using_or_else, Extends-reject_with, Extends-with_cstring, Extends-call_one,
  Extends-call_pos, Extends-new_error_if, Extends-refuse_if,
)

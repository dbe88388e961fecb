-- ===== src/Cgo/Only.antt =====
-- Functions all of whose calls pass a test.
use ossl_go.Prelude.{
  ℕ, Bool, true, false, String, List, [], ◌∷◌, Option, none, some, ◌≡◌, subst, sym, arith,
  if◌then◌else◌,
}
use ossl_go.Prelude.Int.{eq_ℕ}
use ossl_go.Errors.{Error, Result, ok, err, panic}
use ossl_go.Cgo.{
  World, Go, Arg, Call, ptr, pure, fail, abort, ◌>>=◌, continue, call, call_one, acquire,
  acquire_or, or_new_error, using, new_error, clear_errors, deferred, release, with_cstring,
  with_block,
}

-- The second trace is the first with later calls in front of it, each of which passes the test.
pub data Only (test : Call → Bool) (t : List Call) : List Call → Type 0 where
  nothing : Only test t t
  one_more : {u : List Call} (c : Call) → test c ≡ true → Only test t u → Only test t (c ∷ u)

Only-trans :
    {test : Call → Bool} {s t u : List Call} → Only test s t → Only test t u → Only test s u
Only-trans p nothing = p
Only-trans p (one_more c e q) = one_more c e (Only-trans p q)

pub record OnlyCalls {ℓ} {A : Type ℓ} (test : Call → Bool) (m : Go A) : Type 0 where
  pub at : (w : World) → Only test w.trace (m w).1.trace

module _ {ℓ} {A : Type ℓ} {test : Call → Bool} where
  pub OnlyCalls-pure : (x : A) → OnlyCalls test (pure x)
  unfolding pure
  OnlyCalls-pure x = record { at = λ w. nothing }

  pub OnlyCalls-fail : (e : Error) → OnlyCalls test (fail {A = A} e)
  unfolding fail
  OnlyCalls-fail e = record { at = λ w. nothing }

  pub OnlyCalls-abort : (s : String) → OnlyCalls test (abort {A = A} s)
  unfolding abort
  OnlyCalls-abort s = record { at = λ w. nothing }

  pub OnlyCalls-new_error : (op : String) → OnlyCalls test (new_error {A = A} op)
  unfolding new_error
  OnlyCalls-new_error op = record { at = λ w. nothing }

  pub OnlyCalls-if :
      (b : Bool) (m n : Go A)
      → OnlyCalls test m
      → OnlyCalls test n
      → OnlyCalls test (if b then m else n)
  OnlyCalls-if true m n p q = p
  OnlyCalls-if false m n p q = q

module _ {ℓ κ} {A : Type ℓ} {B : Type κ} {test : Call → Bool} where
  continue-Only :
      (t : List Call) (r : Result A) (f : A → Go B) (v : World)
      → Only test t v.trace
      → ((x : A) → OnlyCalls test (f x))
      → Only test t (continue r f v).1.trace
  continue-Only t (ok x) f v h k = Only-trans h ((k x).at v)
  continue-Only t (err e) f v h k = h
  continue-Only t (panic s) f v h k = h

  pub OnlyCalls-bind :
      (m : Go A) (f : A → Go B)
      → OnlyCalls test m
      → ((x : A) → OnlyCalls test (f x))
      → OnlyCalls test (m >>= f)
  unfolding ◌>>=◌
  OnlyCalls-bind m f p k = record { at = λ w. continue-Only w.trace (m w).0 f (m w).1 (p.at w) k }

module _ {test : Call → Bool} where
  pub OnlyCalls-clear_errors : OnlyCalls test clear_errors
  unfolding clear_errors
  OnlyCalls-clear_errors = record { at = λ w. nothing }

  pub OnlyCalls-call :
      (f : String) (args : List Arg)
      → test (record { fn = f; args = args }) ≡ true
      → OnlyCalls test (call f args)
  unfolding call
  OnlyCalls-call f args e = record { at = λ w. one_more _ e nothing }

  called : (c : Call) (t u : List Call) → test c ≡ true → u ≡ c ∷ t → Only test t u
  called c t u e p = subst (Only test t) (sym p) (one_more c e nothing)

  OnlyCalls-acquire :
      (f : String) (args : List Arg)
      → test (record { fn = f; args = args }) ≡ true
      → OnlyCalls test (acquire f args)
  unfolding acquire call
  OnlyCalls-acquire f args e = record {
    at = λ w. called (record { fn = f; args = args }) w.trace _ e (ground arith);
  }

  OnlyCalls-or_new_error : (op : String) (o : Option ℕ) → OnlyCalls test (or_new_error op o)
  OnlyCalls-or_new_error op none = OnlyCalls-new_error op
  OnlyCalls-or_new_error op (some a) = OnlyCalls-pure a

  pub OnlyCalls-call_one :
      (f : String) (args : List Arg) (op : String)
      → test (record { fn = f; args = args }) ≡ true
      → OnlyCalls test (call_one f args op)
  unfolding call_one
  OnlyCalls-call_one f args op e =
      OnlyCalls-bind _ _ (OnlyCalls-call f args e)
        λ r. OnlyCalls-if (eq_ℕ r.rc 1) _ _ (OnlyCalls-pure r) (OnlyCalls-new_error op)

  release-Only :
      (f : String) (a : ℕ) (w : World)
      → test (record { fn = f; args = ptr a ∷ [] }) ≡ true
      → Only test w.trace (release f a w).trace
  unfolding release
  release-Only f a w e = called (record { fn = f; args = ptr a ∷ [] }) w.trace _ e (ground arith)

  module _ {ℓ} {A : Type ℓ} where
    OnlyCalls-deferred :
        (f : String) (a : ℕ) (m : Go A)
        → test (record { fn = f; args = ptr a ∷ [] }) ≡ true
        → OnlyCalls test m
        → OnlyCalls test (deferred (release f a) m)
    unfolding deferred
    OnlyCalls-deferred f a m e p = record {
      at = λ w. Only-trans (p.at w) (release-Only f a (m w).1 e);
    }

    -- A block of C memory, and an object: their functions of release must pass the test.
    pub OnlyCalls-with_block :
        (f : String) (m : Go A)
        → ((a : ℕ) → test (record { fn = f; args = ptr a ∷ [] }) ≡ true)
        → OnlyCalls test m
        → OnlyCalls test (with_block f m)
    unfolding with_block
    OnlyCalls-with_block f m e p = record {
      at = λ w. (OnlyCalls-deferred f w.next m (e w.next) p).at _;
    }

    pub OnlyCalls-with_cstring :
        (s : String) (m : Go A)
        → ((a : ℕ) → test (record { fn = "free"; args = ptr a ∷ [] }) ≡ true)
        → OnlyCalls test m
        → OnlyCalls test (with_cstring s m)
    unfolding with_cstring
    OnlyCalls-with_cstring s m e p = record {
      at = λ w. (OnlyCalls-deferred "free" w.next m (e w.next) p).at _;
    }

    pub OnlyCalls-using :
        (f : String) (args : List Arg) (op free : String) (body : ℕ → Go A)
        → test (record { fn = f; args = args }) ≡ true
        → ((a : ℕ) → test (record { fn = free; args = ptr a ∷ [] }) ≡ true)
        → ((a : ℕ) → OnlyCalls test (body a))
        → OnlyCalls test (using f args op free body)
    unfolding using acquire_or
    OnlyCalls-using f args op free body e g k =
        OnlyCalls-bind _ _
          (OnlyCalls-bind _ _ (OnlyCalls-acquire f args e) (OnlyCalls-or_new_error op))
          λ a. OnlyCalls-deferred free a (body a) (g a) (k a)

-- ===== src/Cgo/Returns.antt =====
-- What is true of the value that a function returns, if it returns one.
use ossl_go.Prelude.{
  ℕ, ◌≡◌, refl, subst, Bool, true, false, String, List, ◌-◌, ◌≤◌, length, take, replicate, ◌++◌,
  length-take, length-append, length-replicate, Bytes, arith, if◌then◌else◌,
}
use ossl_go.Errors.{Result, Error, ok, err, panic, Refusal}
use ossl_go.Cgo.{
  World, Go, Arg, pure, fail, abort, ◌>>=◌, continue, deferred, release, using, acquire_or,
  with_cstring, new_error, written, refuse_if,
}

pub record Ensures {ℓ κ} {A : Type ℓ} (Q : A → Type κ) (m : Go A) : Type (ℓ ⊔ κ) where
  pub at : (w : World) (a : A) → (m w).0 ≡ ok a → Q a

module _ {ℓ κ} {A : Type ℓ} {Q : A → Type κ} where
  pub Ensures-pure : (a : A) → Q a → Ensures Q (pure a)
  unfolding pure
  Ensures-pure a q = record { at = λ w b h. let e : a ≡ b = cc in subst Q e q }

  pub Ensures-fail : (e : Error) → Ensures Q (fail e)
  unfolding fail
  Ensures-fail e = record { at = λ w b h. absurd (cc h) }

  pub Ensures-abort : (s : String) → Ensures Q (abort s)
  unfolding abort
  Ensures-abort s = record { at = λ w b h. absurd (cc h) }

  pub Ensures-new_error : (op : String) → Ensures Q (new_error op)
  unfolding new_error
  Ensures-new_error op = record { at = λ w b h. absurd (cc h) }

  pub Ensures-if :
      (b : Bool) (m n : Go A) → Ensures Q m → Ensures Q n → Ensures Q (if b then m else n)
  Ensures-if true m n p q = p
  Ensures-if false m n p q = q

  pub Ensures-deferred :
      (cleanup : World → World) (body : Go A) → Ensures Q body → Ensures Q (deferred cleanup body)
  unfolding deferred
  Ensures-deferred cleanup body b = record { at = b.at }

  pub Ensures-with_cstring :
      (s : String) (body : Go A) → Ensures Q body → Ensures Q (with_cstring s body)
  unfolding with_cstring deferred
  Ensures-with_cstring s body b = record { at = λ w a h. b.at _ a h }

module _ {ℓ κ μ} {A : Type ℓ} {B : Type κ} {Q : B → Type μ} where
  value_after :
      (r : Result A) (w' : World) (f : A → Go B) (b : B)
      → ((a : A) → r ≡ ok a → Ensures Q (f a))
      → (continue r f w').0 ≡ ok b
      → Q b
  value_after (ok a) w' f b k h = (k a refl).at w' b h
  value_after (err e) w' f b k h = absurd (cc h)
  value_after (panic s) w' f b k h = absurd (cc h)

  -- The rest may use what the first part returned.
  pub Ensures-bind_of :
      (m : Go A) (f : A → Go B)
      → ((w : World) (a : A) → (m w).0 ≡ ok a → Ensures Q (f a))
      → Ensures Q (m >>= f)
  unfolding ◌>>=◌
  Ensures-bind_of m f k = record { at = λ w b h. value_after (m w).0 (m w).1 f b (k w) h }

  pub Ensures-bind : (m : Go A) (f : A → Go B) → ((a : A) → Ensures Q (f a)) → Ensures Q (m >>= f)
  Ensures-bind m f k = Ensures-bind_of m f (λ w a h. k a)

module _ {ℓ κ} {A : Type ℓ} {Q : A → Type κ} where
  pub Ensures-using :
      (f : String) (args : List Arg) (op free : String) (body : ℕ → Go A)
      → ((a : ℕ) → Ensures Q (body a))
      → Ensures Q (using f args op free body)
  unfolding using
  Ensures-using f args op free body k =
      Ensures-bind (acquire_or f args op) _ λ a. Ensures-deferred (release free a) (body a) (k a)

pub ruleset ensures_rules = (
  Ensures-pure, Ensures-fail, Ensures-new_error, Ensures-if, Ensures-with_cstring, Ensures-bind,
  Ensures-using,
)

pub length-written : (size : ℕ) (out : Bytes) (n : ℕ) → n ≤ size → length (written size out n) ≡ n
length-written size out n h = omega (
  arith,
  length-take n (take size (out ++ replicate (size - length out) 0)),
  length-take size (out ++ replicate (size - length out) 0),
  length-append out (replicate (size - length out) 0),
  length-replicate {A = ℕ} (size - length out) 0,
)

-- A guard was passed only if its test was false.
pub refuse_if-false : (b : Bool) (r : Refusal) → Ensures (λ u. b ≡ false) (refuse_if b r)
refuse_if-false true r = Ensures-fail _
refuse_if-false false r = Ensures-pure tt refl

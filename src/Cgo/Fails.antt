-- ===== src/Cgo/Fails.antt =====
-- What is true of the error that a function returns, if it returns one.
use ossl_go.Prelude.{String, List, if◌then◌else◌, ◌≡◌, ◌≢◌, refl, subst, Bool, true, false}
use ossl_go.Errors.{Result, Error, ok, err, panic, Refusal}
use ossl_go.Cgo.{
  World, Go, Arg, call, pure, fail, abort, lift, ◌>>=◌, continue, attempt, attempt_result,
  clear_errors, refuse_if,
}

pub record Fails {ℓ} {A : Type ℓ} (Q : Error → Type 0) (m : Go A) : Type ℓ where
  pub at : (w : World) (e : Error) → (m w).0 ≡ err e → Q e

never_err {ℓ} : {A : Type ℓ} (r : Result A) (e : Error) → attempt_result r ≢ err e
never_err (ok a) e h = cc h
never_err (err x) e h = cc h
never_err (panic s) e h = cc h

module _ {Q : Error → Type 0} where
  module _ {ℓ} {A : Type ℓ} where
    pub Fails-pure : (a : A) → Fails Q (pure a)
    unfolding pure
    Fails-pure a = record { at = λ w e h. absurd (cc h) }

    pub Fails-fail : (e : Error) → Q e → Fails Q (fail {A = A} e)
    unfolding fail
    Fails-fail e q = record { at = λ w e' h. let s : e ≡ e' = cc in subst Q s q }

    pub Fails-abort : (s : String) → Fails Q (abort {A = A} s)
    unfolding abort
    Fails-abort s = record { at = λ w e h. absurd (cc h) }

    pub Fails-lift : (r : Result A) → ((e : Error) → r ≡ err e → Q e) → Fails Q (lift r)
    unfolding lift
    Fails-lift r k = record { at = λ w e h. k e h }

    pub Fails-when :
        (b : Bool) (m n : Go A)
        → (b ≡ true → Fails Q m)
        → (b ≡ false → Fails Q n)
        → Fails Q (if b then m else n)
    Fails-when true m n p q = p refl
    Fails-when false m n p q = q refl

    pub Fails-attempt : (m : Go A) → Fails Q (attempt m)
    unfolding attempt
    Fails-attempt m = record { at = λ w e h. absurd (never_err (m w).0 e h) }

  module _ {ℓ κ} {A : Type ℓ} {B : Type κ} where
    pub Fails-bind :
        (m : Go A) (f : A → Go B) → Fails Q m → ((a : A) → Fails Q (f a)) → Fails Q (m >>= f)
    unfolding ◌>>=◌
    Fails-bind m f p k = record { at = λ w e h. go w (m w).0 (m w).1 (p.at w) e h }
      where
        go :
            (w : World) (r : Result A) (w' : World)
            → ((e : Error) → r ≡ err e → Q e)
            → (e : Error) → (continue r f w').0 ≡ err e
            → Q e
        go w (ok a) w' q e h = (k a).at w' e h
        go w (err x) w' q e h = let s : x ≡ e = cc in subst Q s (q x refl)
        go w (panic s) w' q e h = absurd (cc h)

  pub Fails-clear_errors : Fails Q clear_errors
  unfolding clear_errors
  Fails-clear_errors = record { at = λ w e h. absurd (cc h) }

  pub Fails-call : (f : String) (args : List Arg) → Fails Q (call f args)
  unfolding call
  Fails-call f args = record { at = λ w e h. absurd (cc h) }

  pub Fails-not_refused : (b : Bool) (r : Refusal) → b ≡ false → Fails Q (refuse_if b r)
  Fails-not_refused true r h = absurd (cc h)
  Fails-not_refused false r h = Fails-pure tt

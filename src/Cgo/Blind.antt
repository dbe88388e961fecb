-- ===== src/Cgo/Blind.antt =====
-- Two runs that differ in a secret input: an error of the first is of the one allowed kind, or the
-- second run is the same.
use ossl_go.Prelude.{
  ℕ, ◌≡◌, ◌⊎◌, inl, inr, refl, ap, Bool, true, false, String, List, if◌then◌else◌,
}
use ossl_go.Errors.{Result, Error, ok, err, panic}
use ossl_go.Cgo.{World, Go, Arg, ◌>>=◌, continue, deferred, release, using, acquire_or}
use ossl_go.Cgo.Fails.{Fails}

pub record Blind {ℓ} {A : Type ℓ} (Q : Error → Type 0) (m n : Go A) : Type ℓ where
  pub at : (w : World) (e : Error) → (m w).0 ≡ err e → Q e ⊎ (m w ≡ n w)

module _ {Q : Error → Type 0} where
  pub Blind-Fails {ℓ} : {A : Type ℓ} (m n : Go A) → Fails Q m → Blind Q m n
  Blind-Fails m n f = record { at = λ w e h. inl (f.at w e h) }

  pub Blind-same {ℓ} : {A : Type ℓ} (m : Go A) → Blind Q m m
  Blind-same m = record { at = λ w e h. inr refl }

  pub Blind-if {ℓ} :
      {A : Type ℓ} (b : Bool) (m m' n n' : Go A)
      → Blind Q m n
      → Blind Q m' n'
      → Blind Q (if b then m else m') (if b then n else n')
  Blind-if true m m' n n' p q = p
  Blind-if false m m' n n' p q = q

  module _ {ℓ κ} {A : Type ℓ} {B : Type κ} where
    continued :
        (r : Result A) (w : World) (f g : A → Go B) (e : Error)
        → ((a : A) → Blind Q (f a) (g a))
        → (continue r f w).0 ≡ err e
        → Q e ⊎ (continue r f w ≡ continue r g w)
    continued (ok a) w f g e k h = (k a).at w e h
    continued (err x) w f g e k h = inr refl
    continued (panic s) w f g e k h = inr refl

    pub Blind-bind :
        (m : Go A) (f g : A → Go B) → ((a : A) → Blind Q (f a) (g a)) → Blind Q (m >>= f) (m >>= g)
    unfolding ◌>>=◌
    Blind-bind m f g k = record { at = λ w e h. continued (m w).0 (m w).1 f g e k h }

  module _ {ℓ} {A : Type ℓ} where
    pub Blind-deferred :
        (cleanup : World → World) (m n : Go A)
        → Blind Q m n
        → Blind Q (deferred cleanup m) (deferred cleanup n)
    unfolding deferred
    Blind-deferred cleanup m n p = record {
      at = λ w e h. elim (p.at w e h) [
        | inl q ↦ inl q
        | inr s ↦ inr (ap (λ (x : Result A × World). (x.0, cleanup x.1)) s)
      ];
    }

    pub Blind-using :
        (f : String) (args : List Arg) (op free : String) (m n : ℕ → Go A)
        → ((a : ℕ) → Blind Q (m a) (n a))
        → Blind Q (using f args op free m) (using f args op free n)
    unfolding using
    Blind-using f args op free m n k =
        Blind-bind (acquire_or f args op) _ _ λ a. Blind-deferred (release free a) (m a) (n a) (k a)

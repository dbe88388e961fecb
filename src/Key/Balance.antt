-- ===== src/Key/Balance.antt =====
-- A method of a key that is nil or closed does nothing.
use ossl_go.Prelude.{String, Option, none, some, List}
use ossl_go.Cgo.{Go, Arg, Reply}
use ossl_go.Cgo.Balance.{Balanced, Balanced-fail}
use ossl_go.Cgo.Confirms.{Confirms, Confirms-fail}
use ossl_go.Key.{Pkey, when_open}

module _ {ℓ} {A : Type ℓ} where
  pub Balanced-when_open :
      (k : Option Pkey) (body : Pkey → Go A)
      → ((p : Pkey) → Balanced (body p))
      → Balanced (when_open k body)
  Balanced-when_open none body b = Balanced-fail _
  Balanced-when_open (some p) body b = b p

  pub Confirms-when_open :
      {fn : String} {P : List Arg → Reply → Type 0} (k : Option Pkey) (body : Pkey → Go A)
      → ((p : Pkey) → Confirms fn P (body p))
      → Confirms fn P (when_open k body)
  Confirms-when_open none body b = Confirms-fail _
  Confirms-when_open (some p) body b = b p

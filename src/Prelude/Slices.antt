-- ===== src/Prelude/Slices.antt =====
-- Lemmas on slices: `take` is Go's `xs[:n]`, `drop` its `xs[n:]`, `get_or xs i` its `xs[i]`.
use Prim.Native.Nat.{ℕ, zero, suc, ◌+◌, ◌-◌, ◌<◌, ◌≤◌}
use mathlib.Core.Path.{◌≡◌, refl, ap, subst}
use mathlib.Core.List.{List, [], ◌∷◌, ◌++◌}
use native.Mathlib.Omega.{arith}
use ossl_go.Prelude.Lists.{length, get_or, take, drop, replicate}

module _ {ℓ} {A : Type ℓ} where
  pub take-append : (xs ys : List A) → take (length xs) (xs ++ ys) ≡ xs
  take-append [] ys = refl
  take-append (x ∷ xs) ys = ap (λ zs. x ∷ zs) (take-append xs ys)

  pub drop-append : (xs ys : List A) → drop (length xs) (xs ++ ys) ≡ ys
  drop-append [] ys = refl
  drop-append (x ∷ xs) ys = drop-append xs ys

  pub get_or-append_left :
      (xs ys : List A) (i : ℕ) (d : A) → i < length xs → get_or (xs ++ ys) i d ≡ get_or xs i d
  get_or-append_left [] ys i d h = absurd (omega arith)
  get_or-append_left (x ∷ xs) ys zero d h = refl
  get_or-append_left (x ∷ xs) ys (suc i) d h = get_or-append_left xs ys i d (omega arith)

  pub get_or-append_right :
      (xs ys : List A) (i : ℕ) (d : A)
      → length xs ≤ i
      → get_or (xs ++ ys) i d ≡ get_or ys (i - length xs) d
  get_or-append_right [] ys i d h = ap (λ (k : ℕ). get_or ys k d) (omega arith)
  get_or-append_right (x ∷ xs) ys zero d h = absurd (omega arith)
  get_or-append_right (x ∷ xs) ys (suc i) d h =
      let e : i - length xs ≡ suc i - length (x ∷ xs) = omega arith in
      subst (λ (k : ℕ). get_or (xs ++ ys) i d ≡ get_or ys k d) e
        (get_or-append_right xs ys i d (omega arith))

  pub get_or-replicate : (n i : ℕ) (d : A) → get_or (replicate n d) i d ≡ d
  get_or-replicate zero i d = refl
  get_or-replicate (suc n) zero d = refl
  get_or-replicate (suc n) (suc i) d = get_or-replicate n i d

  pub split_at :
      (xs : List A) (i : ℕ) (d : A)
      → i < length xs
      → xs ≡ take i xs ++ get_or xs i d ∷ drop (suc i) xs
  split_at [] i d h = absurd (omega arith)
  split_at (x ∷ xs) zero d h = refl
  split_at (x ∷ xs) (suc i) d h = ap (λ zs. x ∷ zs) (split_at xs i d (omega arith))

  pub get_or-drop : (n i : ℕ) (xs : List A) (d : A) → get_or (drop n xs) i d ≡ get_or xs (n + i) d
  get_or-drop zero i xs d = ap (λ (k : ℕ). get_or xs k d) (omega arith)
  get_or-drop (suc n) i [] d = refl
  get_or-drop (suc n) i (x ∷ xs) d =
      let e : suc (n + i) ≡ suc n + i = omega arith in
      subst (λ (k : ℕ). get_or (drop n xs) i d ≡ get_or (x ∷ xs) k d) e (get_or-drop n i xs d)

  pub replicate_of_get_or :
      (xs : List A) (d : A)
      → ((i : ℕ) → i < length xs → get_or xs i d ≡ d)
      → xs ≡ replicate (length xs) d
  replicate_of_get_or [] d h = refl
  replicate_of_get_or (x ∷ xs) d h = cc (
    h 0 (omega arith),
    replicate_of_get_or xs d (λ (i : ℕ) (lt : i < length xs). h (suc i) (omega arith)),
  )

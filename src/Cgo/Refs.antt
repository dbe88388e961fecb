-- ===== src/Cgo/Refs.antt =====
-- The references that a world holds over those of another.
use ossl_go.Prelude.{ℕ, suc, ◌+◌, ◌≡◌, refl, ◌∙◌, String, List, [], ◌∷◌, arith, ◌==◌, if◌then◌else◌}
use ossl_go.Cgo.{World, release, bump}
use ossl_go.Cgo.Balance.{SameHeap}

abbrev pub count : ℕ → List ℕ → ℕ
count a [] = 0
count a (x ∷ xs) = if a == x then suc (count a xs) else count a xs

-- `w` holds what `u` holds, and the references of the list.
pub record Over (u : World) (xs : List ℕ) (w : World) : Type 0 where
  pub live : (a : ℕ) → w.live a ≡ count a xs + u.live a
  pub bad : w.bad_frees ≡ u.bad_frees

-- the same references in another order
abbrev pub SameRefs : List ℕ → List ℕ → Type 0
SameRefs xs ys = (a : ℕ) → count a xs ≡ count a ys

pub Over-release :
    {u w : World} {x : ℕ} {xs : List ℕ} (f : String) → Over u (x ∷ xs) w → Over u xs (release f x w)
unfolding release
Over-release {x = x} f h = record {
  live = λ a. ground (arith, h.live a, h.live x);
  bad = ground (arith, h.live x, h.bad);
}

pub Over-unframe :
    {u w : World} {xs : List ℕ} (x : ℕ) (f : String)
    → Over (record u { live = bump u.live x }) xs w
    → Over u xs (release f x w)
unfolding release
Over-unframe x f h = record {
  live = λ a. ground (arith, h.live a, h.live x);
  bad = ground (arith, h.live x, h.bad);
}

pub Over-same : {u w : World} {xs ys : List ℕ} → SameRefs xs ys → Over u xs w → Over u ys w
Over-same p h = record { live = λ a. omega (arith, h.live a, p a); bad = h.bad }

pub Over-SameHeap : {u w v : World} {xs : List ℕ} → SameHeap w v → Over u xs w → Over u xs v
Over-SameHeap s h = record { live = λ a. s.live a ∙ h.live a; bad = s.bad ∙ h.bad }

pub Over-nil : {u w : World} → Over u [] w → SameHeap u w
Over-nil h = record { live = λ a. h.live a ∙ omega arith; bad = h.bad }

pub Over-start : (u : World) → Over u [] u
Over-start u = record { live = λ a. omega arith; bad = refl }

pub Over-more :
    {u w v : World} {x : ℕ} {xs : List ℕ}
    → Over u xs w
    → ((i : ℕ) → v.live i ≡ bump w.live x i)
    → v.bad_frees ≡ w.bad_frees
    → Over u (x ∷ xs) v
Over-more h l b = record { live = λ i. ground (arith, l i, h.live i); bad = b ∙ h.bad }

-- ===== src/Params/Freed.antt =====
-- `defer p.free()`: a builder's arena is released whatever the body ends in.
use ossl_go.Prelude.{
  ℕ, ◌+◌, ◌≡◌, refl, ◌∙◌, true, false, Bool, List, [], ◌∷◌, ◌++◌, arith, if◌then◌else◌,
}
use ossl_go.Errors.{Result, ok, err, panic}
use ossl_go.Cgo.{World, Go, pure, abort, ◌>>=◌, continue, release, deferred}
use ossl_go.Cgo.Balance.{SameHeap, SameHeap-refl, UnlessPanic, Balanced}
use ossl_go.Params.{
  Builder, new_params, empty_builder, terminated, c, free, with_params, release_all,
}
use ossl_go.Cgo.Refs.{count, Over, Over-release}
use ossl_go.Cgo.Uses.{}
use ossl_go.Params.Arena.{Tracks, Tracks-trans, Ends, Adds, Builds}

-- releasing what the arena lists restores the heap
release_all-SameHeap :
    (xs : List ℕ) (w w' : World)
    → ((a : ℕ) → w'.live a ≡ count a xs + w.live a)
    → w'.bad_frees ≡ w.bad_frees
    → SameHeap w (release_all xs w')
unfolding release_all
release_all-SameHeap [] w w' h b = record { live = λ a. h a ∙ omega arith; bad = b }
release_all-SameHeap (x ∷ xs) w w' h b =
    release_all-SameHeap xs w (release "free" x w')
      (λ a. unfold release in ground (arith, h a, h x)) (unfold release in ground (arith, h x))

module _ {ℓ} {A : Type ℓ} where
  free_after :
      (w u : World) (p : Builder) (body : Go A)
      → Tracks w empty_builder u p
      → Balanced body
      → let m = deferred (λ v. (free p v).1) body u in UnlessPanic m.0 (SameHeap w m.1)
  unfolding deferred free
  free_after w u p body t k = go (body u).0 (k.at u)
    where
      go :
          (r : Result A)
          → UnlessPanic r (SameHeap u (body u).1)
          → UnlessPanic r (SameHeap w (release_all p.arena (body u).1))
      go (ok x) s =
          release_all-SameHeap p.arena w (body u).1 (λ a. omega (arith, s.live a, t.live a))
            (s.bad ∙ t.bad)
      go (err e) s =
          release_all-SameHeap p.arena w (body u).1 (λ a. omega (arith, s.live a, t.live a))
            (s.bad ∙ t.bad)
      go (panic m) s = tt

  with_params_then :
      (w u : World) (r : Result Builder) (body : Builder → Go A)
      → Ends r (λ p. Tracks w empty_builder u p)
      → ((p : Builder) → Balanced (body p))
      → let m = continue r (λ p. deferred (λ v. (free p v).1) (body p)) u in
        UnlessPanic m.0 (SameHeap w m.1)
  with_params_then w u (ok p) body t k = free_after w u p (body p) t (k p)
  with_params_then w u (err e) body t k = elim t [ ]
  with_params_then w u (panic s) body t k = tt

  pub Balanced-with_params :
      (build : Go Builder) (body : Builder → Go A)
      → Builds build
      → ((p : Builder) → Balanced (body p))
      → Balanced (with_params build body)
  unfolding with_params ◌>>=◌
  Balanced-with_params build body b k = record {
    at = λ w. with_params_then w (build w).1 (build w).0 body (b.at w) k;
  }

pub c-Balanced : (p : Builder) → Balanced (c p)
unfolding c
c-Balanced p = record { at = λ w. go p.freed w }
  where
    go :
        (b : Bool) (w : World)
        → let m = (if b then abort "ossl: params used after free" else pure (terminated p)) w in
          UnlessPanic m.0 (SameHeap w m.1)
    go true w = tt
    go false w = SameHeap-refl w

-- A loop over a builder that may stop early, and its `defer p.free()` around the rest.
pub record AddsFlag (m : Builder → Go (Bool × Builder)) : Type 0 where
  pub at : (p : Builder) (w : World) → Ends (m p w).0 (λ r. Tracks w p (m p w).1 r.1)

pub AddsFlag-stop : (b : Bool) → AddsFlag (λ p. pure (b, p))
unfolding pure
AddsFlag-stop b = record { at = λ p w. record { live = λ a. refl; bad = refl } }

flag_then :
    (w u : World) (p : Builder) (r : Result Builder) (f : Builder → Go (Bool × Builder))
    → Ends r (λ q. Tracks w p u q)
    → AddsFlag f
    → let m = continue r f u in Ends m.0 (λ q. Tracks w p m.1 q.1)
flag_then w u p (ok q) f t k = go (f q u).0 (k.at q u)
  where
    go :
        (r : Result (Bool × Builder))
        → Ends r (λ r. Tracks u q (f q u).1 r.1)
        → Ends r (λ r. Tracks w p (f q u).1 r.1)
    go (ok r) s = Tracks-trans t s
    go (err e) s = elim s [ ]
    go (panic m) s = tt
flag_then w u p (err e) f t k = elim t [ ]
flag_then w u p (panic s) f t k = tt

pub AddsFlag-bind :
    (m : Builder → Go Builder) (f : Builder → Go (Bool × Builder))
    → Adds m
    → AddsFlag f
    → AddsFlag (λ p. m p >>= f)
unfolding ◌>>=◌
AddsFlag-bind m f a k = record { at = λ p w. flag_then w (m p w).1 p (m p w).0 f (a.at p w) k }

module _ {ℓ} {A : Type ℓ} where
  flag_freed :
      (w u : World) (r : Result (Bool × Builder)) (body : Bool → Builder → Go A)
      → Ends r (λ q. Tracks w empty_builder u q.1)
      → ((b : Bool) (p : Builder) → Balanced (body b p))
      → let m = continue r (λ q. deferred (λ v. (free q.1 v).1) (body q.0 q.1)) u in
        UnlessPanic m.0 (SameHeap w m.1)
  flag_freed w u (ok (b, p)) body t k = free_after w u p (body b p) t (k b p)
  flag_freed w u (err e) body t k = elim t [ ]
  flag_freed w u (panic s) body t k = tt

  pub Balanced-flag_params :
      (m : Builder → Go (Bool × Builder)) (body : Bool → Builder → Go A)
      → AddsFlag m
      → ((b : Bool) (p : Builder) → Balanced (body b p))
      → Balanced (new_params >>= λ p. m p >>= λ q. deferred (λ v. (free q.1 v).1) (body q.0 q.1))
  unfolding ◌>>=◌ new_params pure
  Balanced-flag_params m body a k = record {
    at =
        λ w. flag_freed w (m empty_builder w).1 (m empty_builder w).0 body (a.at empty_builder w) k;
  }

-- The arena is given back from among other references.
pub release_all-Over :
    (xs ys : List ℕ) (u w : World) → Over u (xs ++ ys) w → Over u ys (release_all xs w)
unfolding release_all
release_all-Over [] ys u w h = h
release_all-Over (x ∷ xs) ys u w h =
    release_all-Over xs ys u (release "free" x w) (Over-release "free" h)

pub free-Over :
    (p : Builder) (ys : List ℕ) (u w : World) → Over u (p.arena ++ ys) w → Over u ys (free p w).1
unfolding free
free-Over p ys u w h = release_all-Over p.arena ys u w h

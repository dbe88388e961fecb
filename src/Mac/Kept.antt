-- ===== src/Mac/Kept.antt =====
-- Who owns what a MAC is made of: the algorithm, the context and the arena of the parameters.
use ossl_go.Prelude.{
  ℕ, ◌≡◌, refl, ◌∙◌, sym, ap, subst, Bytes, Bool, String, List, [], ◌∷◌, ◌++◌, Option, none, some,
  arith,
}
use ossl_go.Errors.{Result, ok, err, panic}
use ossl_go.Cgo.{World, Go}
use ossl_go.Cgo.Balance.{SameHeap, UnlessPanic, Balanced, balance_rules}
use ossl_go.Cgo.Refs.{Over, Over-release, Over-SameHeap}
use ossl_go.Cgo.Uses.{
  EndsOver, Uses, Uses-pure, Uses-fail, Uses-new_error, Uses-clear_errors, Uses-call, Uses-bind,
  Uses-acquire, Uses-with_cstring,
}
use ossl_go.Cgo.Returns.{
  Ensures, Ensures-if, Ensures-abort, Ensures-pure, Ensures-bind, Ensures-bind_of,
}
use ossl_go.Digest.{release_some}
use ossl_go.Params.{empty_builder, Builder, terminated, c}
use ossl_go.Params.Arena.{count-append, Builds, Ends, Tracks}
use ossl_go.Params.Freed.{c-Balanced, free-Over}
use ossl_go.Context.{Context}
use ossl_go.Fips.{cleaned, on_error}
use ossl_go.Mac.{
  Mac, free_params, release_now, init_mac, free_some_params, close_mac, keyed, with_context,
  with_algorithm, make_mac,
}

abbrev refs_of : Option ℕ → List ℕ
refs_of none = []
refs_of (some a) = a ∷ []

abbrev arena_of : Option Builder → List ℕ
arena_of none = []
arena_of (some p) = p.arena

-- The references that a MAC keeps, in the order in which `close_mac` gives them back.
abbrev pub mac_refs : Mac → List ℕ
mac_refs m = refs_of m.ctx ++ (refs_of m.mac ++ (arena_of m.p ++ []))

Uses-free_params :
    (p : Builder) (ys zs : List ℕ) → Uses (p.arena ++ ys) zs (λ u. ys) (free_params p)
unfolding free_params
Uses-free_params p ys zs = record { at = λ u w h. free-Over p ys u w h }

Uses-release_now :
    (f : String) (a : ℕ) (ys zs : List ℕ) → Uses (a ∷ ys) zs (λ u. ys) (release_now f a)
unfolding release_now
Uses-release_now f a ys zs = record { at = λ u w h. Over-release f h }

release_some-Over :
    (f : String) (o : Option ℕ) (ys : List ℕ) (u w : World)
    → Over u (refs_of o ++ ys) w
    → Over u ys (release_some f o w)
release_some-Over f none ys u w h = h
release_some-Over f (some a) ys u w h = Over-release f h

free_some-Over :
    (o : Option Builder) (ys : List ℕ) (u w : World)
    → Over u (arena_of o ++ ys) w
    → Over u ys (free_some_params o w)
free_some-Over none ys u w h = h
free_some-Over (some p) ys u w h = free-Over p ys u w h

pub close_mac-Over : (m : Mac) (u w : World) → Over u (mac_refs m) w → Over u [] (close_mac m w).1
unfolding close_mac
close_mac-Over m u w h = free_some-Over m.p [] u _ (
    release_some-Over "EVP_MAC_free" m.mac _ u _
      (release_some-Over "EVP_MAC_CTX_free" m.ctx _ u w h))

-- `init` ends the parameters, and leaves their arena.
terminated-arena : (p : Builder) (b : Bool) → (terminated p).arena ≡ p.arena
terminated-arena p b = ground arith

init_mac-Balanced : (ctx : ℕ) (key : Bytes) (p : Builder) → Balanced (init_mac ctx key p)
unfolding init_mac
init_mac-Balanced ctx key p = search (balance_rules, c-Balanced)

c-arena : (p : Builder) → Ensures (λ p'. p'.arena ≡ p.arena) (c p)
unfolding c
c-arena p = Ensures-if p.freed _ _ (Ensures-abort _) (Ensures-pure _ (ground arith))

init_mac-arena :
    (ctx : ℕ) (key : Bytes) (p : Builder) → Ensures (λ p'. p'.arena ≡ p.arena) (init_mac ctx key p)
unfolding init_mac
init_mac-arena ctx key p =
    Ensures-bind_of _ _ λ w p' h. Ensures-bind _ _ λ r. Ensures-pure p' ((c-arena p).at w p' h)

-- An error of `init` closes the MAC.
init-Over :
    (u v : World) (r : Result Builder) (mac : Mac) (p : Builder) (refs : Builder → List ℕ)
    → UnlessPanic r (Over u (mac_refs mac) v)
    → ((p' : Builder) → r ≡ ok p' → refs p' ≡ mac_refs mac)
    → EndsOver u [] refs (cleaned (close_mac mac) (r, v)).0 (cleaned (close_mac mac) (r, v)).1
init-Over u v (ok p') mac p refs h k = subst (λ xs. Over u xs v) (sym (k p' refl)) h
init-Over u v (err e) mac p refs h k = close_mac-Over mac u v h
init-Over u v (panic s) mac p refs h k = tt

kept-Over :
    (u w v : World) (xs : List ℕ) (r : Result Builder)
    → UnlessPanic r (SameHeap w v)
    → Over u xs w
    → UnlessPanic r (Over u xs v)
kept-Over u w v xs (ok x) s h = Over-SameHeap s h
kept-Over u w v xs (err e) s h = Over-SameHeap s h
kept-Over u w v xs (panic t) s h = tt

Uses-init :
    (ctx m : ℕ) (key : Bytes) (p : Builder)
    → Uses
        (ctx ∷ m ∷ (p.arena ++ []))
        []
        (λ p'. ctx ∷ m ∷ (p'.arena ++ []))
        (on_error (init_mac ctx key p) (close_mac (keyed m ctx key p)))
unfolding on_error
Uses-init ctx m key p = record {
  at = λ u w h.
      let i = init_mac ctx key p w in
      init-Over u i.1 i.0 (keyed m ctx key p) p _
        (kept-Over u w i.1 _ i.0 ((init_mac-Balanced ctx key p).at w) h)
        (λ p' e. ap (λ xs. ctx ∷ m ∷ (xs ++ [])) ((init_mac-arena ctx key p).at w p' e));
}

with_context-Uses :
    (m : ℕ) (key : Bytes) (p : Builder) (o : Option ℕ)
    → Uses (refs_of o ++ (m ∷ (p.arena ++ []))) [] mac_refs (with_context m key p o)
with_context-Uses m key p none =
    Uses-bind _ _ (Uses-release_now "EVP_MAC_free" m _ _)
      λ u. Uses-bind _ _ (Uses-free_params p [] _) λ v. Uses-new_error _ λ a. refl
with_context-Uses m key p (some ctx) = Uses-bind _ _ (Uses-init ctx m key p) λ p'.
    Uses-bind _ _ (Uses-call _ _) λ size. Uses-bind _ _ (Uses-call _ _) λ bs. Uses-pure _ λ a. refl

with_algorithm-Uses :
    (algorithm : String) (key : Bytes) (p : Builder) (o : Option ℕ)
    → Uses (refs_of o ++ (p.arena ++ [])) [] mac_refs (with_algorithm algorithm key p o)
with_algorithm-Uses algorithm key p none =
    Uses-bind _ _ (Uses-free_params p [] _) λ u. Uses-new_error _ λ a. refl
with_algorithm-Uses algorithm key p (some m) =
    Uses-acquire _ _ _ (with_context-Uses m key p none) λ ctx. with_context-Uses m key p (some ctx)

pub make_mac-Uses :
    (c : Option Context) (algorithm : String) (key : Bytes) (p : Builder)
    → Uses (p.arena ++ []) [] mac_refs (make_mac c algorithm key p)
unfolding make_mac
make_mac-Uses none algorithm key p =
    Uses-bind _ _ (Uses-free_params p [] _) λ u. Uses-fail _ λ a. refl
make_mac-Uses (some c) algorithm key p = Uses-bind _ _ Uses-clear_errors λ u.
    Uses-with_cstring algorithm _ (
      Uses-acquire _ _ _ (with_algorithm-Uses algorithm key p none)
        λ m. with_algorithm-Uses algorithm key p (some m))

built-Over :
    (u w v : World) (r : Result Builder)
    → Ends r (λ p. Tracks w empty_builder v p)
    → Over u [] w
    → EndsOver u [] (λ p. p.arena ++ []) r v
built-Over u w v (ok p) t h = record {
  live = λ a. omega (arith, t.live a, h.live a, count-append a p.arena []);
  bad = t.bad ∙ h.bad;
}
built-Over u w v (err e) t h = elim t [ ]
built-Over u w v (panic s) t h = tt

pub Uses-Builds : (m : Go Builder) → Builds m → Uses [] [] (λ p. p.arena ++ []) m
Uses-Builds m b = record { at = λ u w h. built-Over u w (m w).1 (m w).0 (b.at w) h }

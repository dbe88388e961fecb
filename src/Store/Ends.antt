-- ===== src/Store/Ends.antt =====
-- The loops of ossl/store.go come to an end, where the store does.
use ossl_go.Prelude.{
  ℕ, zero, suc, ◌+◌, ◌≤◌, arith, String, str_eq, List, [], ◌∷◌, ◌++◌, Option, none, some,
}
use ossl_go.Cgo.{World, Go}
use ossl_go.Cgo.Trace.{Later, Later-trans, Extends-call_one, Extends-clear_errors}
use ossl_go.Cgo.Fine.{
  Fine, Fine-pure, Fine-fail, Fine-clear_errors, Fine-call_one, Alike, Alike-Fine, Alike-if,
  Alike-then, Alike-bind, Alike-with_cstring, Alike-using,
}
use ossl_go.Context.{Context}
use ossl_go.Key.{Pkey}
use ossl_go.Store.{
  found_or, first_key, as_key, load_typed, with_store, StoreObject, all_objects, list_store,
}
use ossl_go.Store.Rounds.{
  loads, Ends, loads-Grows, Ends-Later, key_of_info-Fine, key_of_info-Extends, object_of_info-Fine,
  object_of_info-Extends, next_object-Alike,
}

found_or-Alike :
    (v : World) (m n : Go (Option Pkey)) (o : Option Pkey)
    → Alike v m n
    → Alike v (found_or m o) (found_or n o)
found_or-Alike v m n none h = h
found_or-Alike v m n (some p) h = Alike-Fine v _ (Fine-pure (some p))

-- With as much fuel as there are objects left, and one more, the loops behave as with any greater fuel.
first_key-Alike :
    (n s i j : ℕ) (w : World)
    → Ends n w.lib
    → n ≤ i + loads s w.trace
    → n ≤ j + loads s w.trace
    → Alike w (first_key (suc i) s) (first_key (suc j) s)
unfolding first_key
first_key-Alike n s zero j w e p q =
    next_object-Alike n s _ (Fine-pure none) _ _ w e λ info u l h g. absurd (omega (arith, h, p))
first_key-Alike n s (suc i) zero w e p q =
    next_object-Alike n s _ (Fine-pure none) _ _ w e λ info u l h g. absurd (omega (arith, h, q))
first_key-Alike n s (suc i) (suc j) w e p q =
    next_object-Alike n s _ (Fine-pure none) _ _ w e λ info u l h g.
      Alike-bind u _ _ _ (key_of_info-Extends info) (key_of_info-Fine info) λ o v k.
        found_or-Alike v _ _ o (
          first_key-Alike n s i j v (Ends-Later n (Later-trans l k) e)
            (omega (arith, p, g, loads-Grows s k.trace))
            (omega (arith, q, g, loads-Grows s k.trace)))

all_objects-Alike :
    (n s i j : ℕ) (out : List StoreObject) (w : World)
    → Ends n w.lib
    → n ≤ i + loads s w.trace
    → n ≤ j + loads s w.trace
    → Alike w (all_objects (suc i) s out) (all_objects (suc j) s out)
unfolding all_objects
all_objects-Alike n s zero j out w e p q =
    next_object-Alike n s _ (Fine-pure out) _ _ w e λ info u l h g. absurd (omega (arith, h, p))
all_objects-Alike n s (suc i) zero out w e p q =
    next_object-Alike n s _ (Fine-pure out) _ _ w e λ info u l h g. absurd (omega (arith, h, q))
all_objects-Alike n s (suc i) (suc j) out w e p q =
    next_object-Alike n s _ (Fine-pure out) _ _ w e λ info u l h g.
      Alike-bind u _ _ _ (object_of_info-Extends info) (object_of_info-Fine info) λ o v k.
        all_objects-Alike n s i j (out ++ o ∷ []) v (Ends-Later n (Later-trans l k) e)
          (omega (arith, p, g, loads-Grows s k.trace)) (omega (arith, q, g, loads-Grows s k.trace))

with_store-Alike {ℓ} :
    {A : Type ℓ} (w : World) (c : Context) (uri : String) (f g : ℕ → Go A)
    → ((s : ℕ) (v : World) → Later w v → Alike v (f s) (g s))
    → Alike w (with_store c uri f) (with_store c uri g)
with_store-Alike w c uri f g h = Alike-bind w _ _ _ Extends-clear_errors Fine-clear_errors λ u v k.
    Alike-with_cstring v uri _ _
      λ v2 k2. Alike-using v2 _ _ _ _ _ _ λ s v3 k3. h s v3 (Later-trans k (Later-trans k2 k3))

as_key-Fine : (c : Context) (o : Option Pkey) → Fine (as_key c o)
as_key-Fine c none = Fine-fail _
as_key-Fine c (some p) = Fine-pure _

load_typed-Alike :
    (n i j : ℕ) (c : Option Context) (uri : String) (expect : ℕ) (w : World)
    → Ends n w.lib
    → n ≤ i
    → n ≤ j
    → Alike w (load_typed (suc i) c uri expect) (load_typed (suc j) c uri expect)
unfolding load_typed
load_typed-Alike n i j none uri expect w e p q = Alike-Fine w _ (Fine-fail _)
load_typed-Alike n i j (some c) uri expect w e p q =
    Alike-if w (str_eq uri "") _ _ _ (Alike-Fine w _ (Fine-fail _)) (
      with_store-Alike w c uri _ _ λ s v l.
        Alike-bind v _ _ _ (Extends-call_one _ _ _) (Fine-call_one _ _ _) λ r v2 l2.
          let h =
            first_key-Alike n s i j v2 (Ends-Later n (Later-trans l l2) e) (omega (arith, p))
              (omega (arith, q)) in
          Alike-then v2 _ _ (as_key c) h (as_key-Fine c))

list_store-Alike :
    (n i j : ℕ) (c : Option Context) (uri : String) (w : World)
    → Ends n w.lib
    → n ≤ i
    → n ≤ j
    → Alike w (list_store (suc i) c uri) (list_store (suc j) c uri)
unfolding list_store
list_store-Alike n i j none uri w e p q = Alike-Fine w _ (Fine-fail _)
list_store-Alike n i j (some c) uri w e p q =
    Alike-if w (str_eq uri "") _ _ _ (Alike-Fine w _ (Fine-fail _)) (
      with_store-Alike w c uri _ _ λ s v l.
        all_objects-Alike n s i j [] v (Ends-Later n l e) (omega (arith, p)) (omega (arith, q)))

-- If every store says that its end is reached once it was asked for `n` objects, then loading a key
-- and listing a store end: with any fuel above `n` both give one and the same result, and the
-- fuel does not run out.
pub stores_end :
    (n i j : ℕ) (c : Option Context) (uri : String) (expect : ℕ) (w : World)
    → Ends n w.lib
    → n ≤ i
    → n ≤ j
    → Alike w (load_typed (suc i) c uri expect) (load_typed (suc j) c uri expect)
      × Alike w (list_store (suc i) c uri) (list_store (suc j) c uri)
stores_end n i j c uri expect w e p q =
    (load_typed-Alike n i j c uri expect w e p q, list_store-Alike n i j c uri w e p q)

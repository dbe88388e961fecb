-- ===== src/Enumerate/Owned.antt =====
-- The copies of the names are released, on every path.
use ossl_go.Prelude.{
  ℕ, zero, suc, arith, Bool, true, false, String, List, [], ◌∷◌, ◌++◌, Option, none, some, refl,
  if◌then◌else◌,
}
use ossl_go.Errors.{Result, ok, err, panic}
use ossl_go.Cgo.{World, Go, pure, ◌>>=◌, deferred}
use ossl_go.Cgo.Balance.{Balanced, SameHeap, UnlessPanic, balance_rules}
use ossl_go.Cgo.Refs.{Over, Over-same, Over-SameHeap, SameRefs}
use ossl_go.Cgo.Uses.{EndsOver, Uses, Uses-pure, Uses-bind, Uses-call, Balanced-Uses}
use ossl_go.Params.Arena.{count-append}
use ossl_go.Params.Freed.{release_all-Over}
use ossl_go.Context.{Context}
use ossl_go.Enumerate.{
  NameList, no_names, strdup, name_append, name_of, call_back, free_names, collect,
}

strdup-Uses : (xs ys : List ℕ) → Uses xs ys (λ a. a ∷ xs) strdup
unfolding strdup
strdup-Uses xs ys = record {
  at = λ u w h. record { live = λ i. ground (arith, h.live i); bad = h.bad };
}

last-SameRefs : (a : ℕ) (xs : List ℕ) → SameRefs (a ∷ xs) (xs ++ a ∷ [])
last-SameRefs a xs i = ground (arith, count-append i xs (a ∷ []))

append_by-Uses :
    (l : NameList) (x : String) (b d : Bool)
    → Uses l.copies []
        (λ l'. l'.copies)
        (if b
          then pure (record l { overflow = true })
          else if d
          then pure l
          else (strdup >>= λ a.
              pure (record l { items = l.items ++ x ∷ []; copies = l.copies ++ a ∷ [] })))
append_by-Uses l x true d = Uses-pure _ λ a. refl
append_by-Uses l x false true = Uses-pure _ λ a. refl
append_by-Uses l x false false =
    Uses-bind _ _ (strdup-Uses l.copies []) λ a. Uses-pure _ (last-SameRefs a l.copies)

name_append-Uses :
    (l : NameList) (o : Option String) → Uses l.copies [] (λ l'. l'.copies) (name_append l o)
unfolding name_append
name_append-Uses l none = Uses-pure _ λ a. refl
name_append-Uses l (some x) = append_by-Uses l x _ _

call_back-Uses :
    (get_name : String) (n : ℕ) (l : NameList)
    → Uses l.copies [] (λ l'. l'.copies) (call_back get_name n l)
unfolding call_back
call_back-Uses get_name zero l = Uses-pure _ λ a. refl
call_back-Uses get_name (suc n) l =
    Uses-bind _ _ (Uses-call _ _)
      λ r. Uses-bind _ _ (name_append-Uses l (name_of r)) λ l'. call_back-Uses get_name n l'

freed-Over :
    (u w v : World) (l : NameList) (r : Result (List String))
    → UnlessPanic r (SameHeap w v)
    → Over u (l.copies ++ []) w
    → EndsOver u [] (λ x. []) r (free_names l v)
freed-Over u w v l (ok x) s h = release_all-Over l.copies [] u v (Over-SameHeap s h)
freed-Over u w v l (err e) s h = release_all-Over l.copies [] u v (Over-SameHeap s h)
freed-Over u w v l (panic t) s h = tt

nil-SameRefs : (xs : List ℕ) → SameRefs xs (xs ++ [])
nil-SameRefs xs a = omega (arith, count-append a xs [])

Uses-freed :
    (l : NameList) (body : Go (List String))
    → Balanced body
    → Uses l.copies [] (λ x. []) (deferred (free_names l) body)
unfolding deferred
Uses-freed l body b = record {
  at = λ u w h.
      freed-Over u w (body w).1 l (body w).0 (b.at w) (Over-same (nil-SameRefs l.copies) h);
}

-- An enumeration releases each copy of a name, also where it refuses.
pub collect-Balanced :
    (c : Context) (do_all get_name : String) → Balanced (collect c do_all get_name)
unfolding collect
collect-Balanced c do_all get_name = Balanced-Uses _ (
    Uses-bind _ _ (Uses-call _ _) λ r.
      Uses-bind _ _ (call_back-Uses get_name r.len no_names)
        λ l. Uses-freed l _ (search balance_rules))

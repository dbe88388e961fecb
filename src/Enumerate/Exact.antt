-- ===== src/Enumerate/Exact.antt =====
-- What an enumeration returns.
use ossl_go.Prelude.{
  ◌<◌, ◌≡◌, ◌⊎◌, inl, inr, refl, ◌∙◌, arith, Bool, true, false, String, List, [], ◌∷◌, Option, some,
  if◌then◌else◌, length,
}
use ossl_go.Errors.{Result, ok, err, panic, refused, too_many_names}
use ossl_go.Cgo.{World, Call, pure, fail, ◌>>=◌, continue, call, deferred}
use ossl_go.Context.{Context, context_ptr}
use ossl_go.Enumerate.{
  has_name, sort_names, NameList, no_names, call_back, free_names, sorted_names, collect,
}
use ossl_go.Enumerate.Order.{Ascending, has-sort, sort_names-Ascending}
use ossl_go.Enumerate.Collected.{
  Collected, answers, supplied, has_answer, Steps, trace_after, call_back-Steps,
}

-- The result of an enumeration: the names in ascending order, or the refusal of a list that is too long.
abbrev pub IsListOf : List (Option String) → Result (List String) → Type 0
IsListOf ns r =
    ((out : List String) × (r ≡ ok out)
      × Ascending out
      × ((s : String) → has_name s out ≡ has_answer s ns))
    ⊎ ((r ≡ err (refused too_many_names)) × (512 < length ns))

sorted_list :
    (ns : List (Option String)) (l : NameList) (b : Bool) (w : World)
    → Collected no_names ns l
    → l.overflow ≡ b
    → IsListOf ns ((if b then fail (refused too_many_names) else pure (sort_names l.items)) w).0
unfolding pure fail
sorted_list ns l true w p e = elim (p.full e) [
  | inl f ↦ absurd (cc f)
  | inr f ↦ inr (refl, omega (arith, f))
]
sorted_list ns l false w p e = inl (
  sort_names l.items,
  refl,
  sort_names-Ascending l.items (p.distinct tt),
  λ s. has-sort s l.items ∙ p.exact e s ∙ unfold has_name in refl,
)

IsListOf-Steps :
    (ns : List (Option String)) (w : World) (t : List Call) (r : Result NameList) (v : World)
    → Steps no_names ns w t (r, v)
    → IsListOf ns (continue r (λ l. deferred (free_names l) (sorted_names l)) v).0
unfolding deferred
IsListOf-Steps ns w t (ok l) v (p, e, g) = sorted_list ns l l.overflow v p refl
IsListOf-Steps ns w t (err x) v h = elim h [ ]
IsListOf-Steps ns w t (panic x) v h = elim h [ ]

-- An enumeration returns just the names that libcrypto supplied, each once and in ascending order; or
-- it refuses, and then libcrypto called back more than 512 times.
pub collect_exact :
    (c : Context) (do_all get_name : String) (w : World)
    → IsListOf (supplied c do_all get_name w) (collect c do_all get_name w).0
unfolding collect call ◌>>=◌
collect_exact c do_all get_name w =
    let w1 = (call do_all (context_ptr (some c) ∷ []) w).1 in
    let n = (w.lib w.trace (record { fn = do_all; args = context_ptr (some c) ∷ [] })).len in
    let m = call_back get_name n no_names w1 in
    IsListOf-Steps (answers w1.lib get_name n w1.trace) w1 (trace_after get_name n w1.trace) m.0 m.1
      (call_back-Steps get_name n no_names w1)

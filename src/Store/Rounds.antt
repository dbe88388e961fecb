-- ===== src/Store/Rounds.antt =====
-- One round of a loop over a store that ends.
use ossl_go.Prelude.{
  ℕ, suc, ◌≤◌, ◌<◌, arith, Bool, true, false, ◌&&◌, str_eq, List, [], ◌∷◌, Option, none, some, ◌==◌,
  ◌≡◌, refl, sym, subst, if◌then◌else◌,
}
use ossl_go.Prelude.Int.{eq_ℕ}
use ossl_go.Errors.{Result, ok, err, panic}
use ossl_go.Cgo.{World, Go, Arg, Call, Reply, ptr, ◌>>=◌, continue, call, acquire}
use ossl_go.Cgo.Trace.{
  Grows, same, more, Later, Later-trans, release-Later, Extends, Extends-call, Extends-acquire,
  extends_rules,
}
use ossl_go.Cgo.Fine.{
  NoPanic, Fine, Fine-pure, Fine-fail, Fine-new_error, Fine-if, Fine-call, Fine-bind,
  Fine-clear_errors, Fine-call_one, Fine-acquire, Alike, Alike-Fine,
}
use ossl_go.Key.{own}
use ossl_go.Store.{info_free, key_of_info, loaded, next_object, object_of_info}

-- how often the store at `s` was asked for an object
abbrev on_store : ℕ → List Arg → Bool
on_store s (ptr a ∷ rest) = a == s
on_store s _ = false

abbrev is_load : ℕ → Call → Bool
is_load s c = str_eq c.fn "OSSL_STORE_load" && on_store s c.args

abbrev pub loads : ℕ → List Call → ℕ
loads s [] = 0
loads s (c ∷ t) = if is_load s c then suc (loads s t) else loads s t

-- After `n` objects, or fewer, a store says that its end is reached, and stays there.
abbrev pub Ends : ℕ → (List Call → Call → Reply) → Type 0
Ends n lib =
    (s : ℕ) (t : List Call)
    → n ≤ loads s t
    → eq_ℕ (lib t (record { fn = "OSSL_STORE_eof"; args = ptr s ∷ [] })).rc 1 ≡ true

pub loads-Grows : (s : ℕ) {t u : List Call} → Grows t u → loads s t ≤ loads s u
loads-Grows s same = omega arith
loads-Grows s (more c g) = ground (arith, loads-Grows s g)

pub Ends-Later : (n : ℕ) {w v : World} → Later w v → Ends n w.lib → Ends n v.lib
Ends-Later n l e = subst (Ends n) (sym l.lib) e

own-Extends : (r : Reply) → Extends (own r)
own-Extends r = record { at = λ w. record { lib = refl; trace = same } }

info_free-Extends : (info : ℕ) → Extends (info_free info)
unfolding info_free
info_free-Extends info = record { at = release-Later "OSSL_STORE_INFO_free" info }

own-Fine : (r : Reply) → Fine (own r)
own-Fine r = record { at = λ w. tt }

info_free-Fine : (info : ℕ) → Fine (info_free info)
unfolding info_free
info_free-Fine info = record { at = λ w. tt }

ruleset fine_rules = (
  Fine-pure, Fine-fail, Fine-new_error, Fine-if, Fine-call, Fine-bind, Fine-clear_errors,
  Fine-call_one, own-Fine, info_free-Fine,
)

pub key_of_info-Fine : (info : ℕ) → Fine (key_of_info info)
unfolding key_of_info
key_of_info-Fine info = search fine_rules depth 16

pub key_of_info-Extends : (info : ℕ) → Extends (key_of_info info)
unfolding key_of_info
key_of_info-Extends info = search (extends_rules, own-Extends, info_free-Extends) depth 16

pub object_of_info-Fine : (info : ℕ) → Fine (object_of_info info)
unfolding object_of_info
object_of_info-Fine info = search fine_rules depth 24

pub object_of_info-Extends : (info : ℕ) → Extends (object_of_info info)
unfolding object_of_info
object_of_info-Extends info = search (extends_rules, info_free-Extends) depth 24

-- Two rounds are alike if they are for each object that the store hands out before its end.
module _ {ℓ} {A : Type ℓ} (n s : ℕ) (stop : Go A) (p : Fine stop) (f g : ℕ → Go A) where
  loaded-Alike :
      (w v : World) (r : Result (Option ℕ))
      → ((info : ℕ) → r ≡ ok (some info) → Alike v (f info) (g info))
      → NoPanic r
      → Alike v (λ v. continue r (loaded s stop f) v) (λ v. continue r (loaded s stop g) v)
  loaded-Alike w v (ok none) h q = Alike-Fine v (loaded s stop f none) (search fine_rules)
  loaded-Alike w v (ok (some info)) h q = h info refl
  loaded-Alike w v (err e) h q = record { same = refl; fine = tt }
  loaded-Alike w v (panic t) h q = absurd q

  load_call : Call
  load_call = record { fn = "OSSL_STORE_load"; args = ptr s ∷ [] }

  load-loads :
      (w : World)
      → loads s (acquire "OSSL_STORE_load" (ptr s ∷ []) w).1.trace ≡ suc (loads s w.trace)
  unfolding acquire call
  load-loads w = ground arith

  round-Alike :
      (b : Bool) (w v : World)
      → Later w v
      → loads s w.trace ≤ loads s v.trace
      → (n ≤ loads s w.trace → b ≡ true)
      → ((info : ℕ) (u : World)
          → Later w u
          → loads s w.trace < n
          → suc (loads s w.trace) ≤ loads s u.trace
          → Alike u (f info) (g info))
      → Alike v
          (if b then stop else acquire "OSSL_STORE_load" (ptr s ∷ []) >>= loaded s stop f)
          (if b then stop else acquire "OSSL_STORE_load" (ptr s ∷ []) >>= loaded s stop g)
  unfolding ◌>>=◌
  round-Alike true w v l i e h = Alike-Fine v stop p
  round-Alike false w v l i e h =
      let m = acquire "OSSL_STORE_load" (ptr s ∷ []) in
      let d = (Extends-acquire "OSSL_STORE_load" (ptr s ∷ [])).at v in
      let a =
        loaded-Alike v (m v).1 (m v).0
          (λ info q.
            h info (m v).1 (Later-trans l d) (ground (arith, e)) (ground (arith, i, load-loads v)))
          ((Fine-acquire "OSSL_STORE_load" (ptr s ∷ [])).at v) in
      record { same = a.same; fine = a.fine }

  pub next_object-Alike :
      (w : World)
      → Ends n w.lib
      → ((info : ℕ) (u : World)
          → Later w u
          → loads s w.trace < n
          → suc (loads s w.trace) ≤ loads s u.trace
          → Alike u (f info) (g info))
      → Alike w (next_object s stop f) (next_object s stop g)
  unfolding next_object call ◌>>=◌
  next_object-Alike w e h =
      let eof : Call = record { fn = "OSSL_STORE_eof"; args = ptr s ∷ [] } in
      let l = (Extends-call "OSSL_STORE_eof" (ptr s ∷ [])).at w in
      let a =
        round-Alike (eq_ℕ (w.lib w.trace eof).rc 1) w (call "OSSL_STORE_eof" (ptr s ∷ []) w).1 l
          (loads-Grows s l.trace) (e s w.trace) h in
      record { same = a.same; fine = a.fine }

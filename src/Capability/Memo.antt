-- ===== src/Capability/Memo.antt =====
-- The memo of a context: an answer that was learned stays, and is given again without another try.
use ossl_go.Prelude.{
  Bool, true, false, String, str_eq, str_append, List, ◌∷◌, Option, none, some, ◌≡◌, refl, ◌∙◌, sym,
  ap, subst, arith, if◌then◌else◌,
}
use ossl_go.Errors.{Error, Result, ok, err, panic}
use ossl_go.Cgo.{World, Go, pure}
use ossl_go.Cgo.Returns.{
  Ensures, Ensures-pure, Ensures-abort, Ensures-if, Ensures-bind, Ensures-bind_of,
}
use ossl_go.Prelude.{eq_iff}
use ossl_go.Capability.{
  Capability, signature, aead, cipher, Prober, Checked, go_on, recall, as_result, learn, remember,
  ask, probe, curve_usable, curve_supported,
}
use ossl_go.Capability.Check.{usable_curve, as_unusable, check_curve, check_signature, check}

-- The memo holds the answer `r` under the key.
abbrev Holds : String → Prober → Result (Unit {0}) → Type 0
Holds key st r = (e : Option Error) × (recall key st.ctx.probes ≡ some e) × (as_result e ≡ r)

recall_first :
    (key : String) (e : Option Error) (rest : List (String × Option Error))
    → recall key ((key, e) ∷ rest) ≡ some e
unfolding recall
recall_first key e rest = ground (arith, eq_iff key key)

remember-Holds :
    (st : Prober) (key : String) (r : Result (Unit {0}))
    → Ensures (λ q. Holds key q.0 q.1) (remember st key r)
remember-Holds st key (ok tt) = Ensures-pure _ (none, recall_first key none _, refl)
remember-Holds st key (err e) =
    Ensures-bind _ _ λ u. Ensures-pure _ (some e, recall_first key (some e) _, refl)
remember-Holds st key (panic s) = Ensures-abort s

ask-Holds :
    (st : Prober) (key : String) (run : Go (Unit {0})) (o : Option (Option Error))
    → recall key st.ctx.probes ≡ o
    → Ensures (λ q. Holds key q.0 q.1) (ask st key run o)
ask-Holds st key run (some e) p = Ensures-pure _ (e, p, refl)
ask-Holds st key run none p = Ensures-bind _ _ (remember-Holds st key)

probe-Holds :
    (st : Prober) (key : String) (run : Go (Unit {0}))
    → Ensures (λ q. Holds key q.0 q.1) (probe st key run)
unfolding probe
probe-Holds st key run = ask-Holds st key run (recall key st.ctx.probes) refl

ask_held :
    (st : Prober) (key : String) (run : Go (Unit {0})) (r : Result (Unit {0}))
    (o : Option (Option Error)) (e : Option Error) (v : World)
    → o ≡ some e
    → as_result e ≡ r
    → ask st key run o v ≡ (ok (st, r), v)
unfolding pure
ask_held st key run r none e v p q = absurd (cc p)
ask_held st key run r (some d) e v p q =
    let h : d ≡ e = cc in ap (λ r. (ok (st, r), v)) (ap as_result h ∙ q)

-- What one memo holds, the other holds too.
abbrev Keeps : List (String × Option Error) → List (String × Option Error) → Type 0
Keeps ps qs = (key : String) (d : Option Error) → recall key ps ≡ some d → recall key qs ≡ some d

-- What starts from the memo `ps` ends with a memo that keeps it.
abbrev KeepsMemo {ℓ} : {A : Type ℓ} → (A → Prober) → List (String × Option Error) → Go A → Type ℓ
KeepsMemo st ps m = Ensures (λ q. Keeps ps (st q).ctx.probes) m

recall_later :
    (k key : String) (e : Option Error) (rest : List (String × Option Error)) (d : Option Error)
    → recall key rest ≡ none
    → recall k rest ≡ some d
    → recall k ((key, e) ∷ rest) ≡ some d
unfolding recall
recall_later k key e rest d n p =
    elim (str_eq k key)
        as (λ b. str_eq k key ≡ b → (if b then some e else recall k rest) ≡ some d) [
          | true ↦ λ q.
              absurd (let g : k ≡ key = (eq_iff k key).0 q in cc (ap (λ x. recall x rest) g, n, p))
          | false ↦ λ q. p
        ]
      refl

learn-Keeps :
    (st : Prober) (key : String) (e : Option Error)
    → recall key st.ctx.probes ≡ none
    → Keeps st.ctx.probes (learn st.ctx key e).probes
learn-Keeps st key e n k d p = recall_later k key e st.ctx.probes d n p

module _ (st : Prober) (key : String) where
  remember-Keeps :
      (r : Result (Unit {0}))
      → recall key st.ctx.probes ≡ none
      → KeepsMemo (λ q. q.0) st.ctx.probes (remember st key r)
  remember-Keeps (ok tt) n = Ensures-pure _ (learn-Keeps st key none n)
  remember-Keeps (err e) n = Ensures-bind _ _ λ u. Ensures-pure _ (learn-Keeps st key (some e) n)
  remember-Keeps (panic s) n = Ensures-abort s

  ask-Keeps :
      (run : Go (Unit {0})) (o : Option (Option Error))
      → recall key st.ctx.probes ≡ o
      → KeepsMemo (λ q. q.0) st.ctx.probes (ask st key run o)
  ask-Keeps run (some e) p = Ensures-pure _ λ k d h. h
  ask-Keeps run none p = Ensures-bind _ _ λ r. remember-Keeps r p

curve_usable-Keeps :
    (st : Prober) (name : String) → KeepsMemo (λ q. q.0) st.ctx.probes (curve_usable st name)
unfolding curve_usable probe
curve_usable-Keeps st name = ask-Keeps st _ _ (recall _ st.ctx.probes) refl

unusable_same : (q : Checked) → (as_unusable q).0 ≡ q.0
unusable_same (s, ok u) = refl
unusable_same (s, err e) = refl
unusable_same (s, panic t) = refl

usable_curve-Keeps :
    (q : Prober × Bool) (curve : String)
    → KeepsMemo (λ q. q.0) q.0.ctx.probes (usable_curve q curve)
usable_curve-Keeps (s, false) curve = Ensures-pure _ λ k d h. h
usable_curve-Keeps (s, true) curve = Ensures-bind_of _ _ λ w q h. Ensures-pure _ (
    subst (λ t. Keeps s.ctx.probes t.ctx.probes) (sym (unusable_same q))
      ((curve_usable-Keeps s curve).at w q h))

curve_supported-Keeps :
    (st : Prober) (curve : String)
    → Ensures (λ q. q.0.ctx.probes ≡ st.ctx.probes) (curve_supported st curve)
unfolding curve_supported
curve_supported-Keeps st curve = Ensures-bind _ _ λ t. Ensures-bind _ _ λ n. Ensures-pure _ refl

check_curve-Keeps :
    (st : Prober) (curve : String) → KeepsMemo (λ q. q.0) st.ctx.probes (check_curve st curve)
unfolding check_curve
check_curve-Keeps st curve = Ensures-if (str_eq curve "") _ _ (Ensures-pure _ λ k d h. h) (
    Ensures-bind_of _ _ λ w q h.
      subst (λ ps. KeepsMemo (λ q. q.0) ps (usable_curve q curve))
        ((curve_supported-Keeps st curve).at w q h) (usable_curve-Keeps q curve))

go_on-Keeps :
    (ps : List (String × Option Error)) (st : Prober) (r : Result (Unit {0})) (next : Go Checked)
    → Keeps ps st.ctx.probes
    → KeepsMemo (λ q. q.0) ps next
    → KeepsMemo (λ q. q.0) ps (go_on st r next)
go_on-Keeps ps st (ok u) next p q = q
go_on-Keeps ps st (err e) next p q = Ensures-pure _ p
go_on-Keeps ps st (panic s) next p q = Ensures-abort s

check-Keeps : (st : Prober) (x : Capability) → KeepsMemo (λ q. q.0) st.ctx.probes (check st x)
unfolding check check_signature
check-Keeps st (signature s) = Ensures-bind _ _ λ r.
    go_on-Keeps st.ctx.probes st r _ (λ k d h. h)
      (Ensures-bind_of _ _ λ w q h.
        let k = (check_curve-Keeps st s.curve).at w q h in
        go_on-Keeps st.ctx.probes q.0 q.1 _ k (Ensures-bind _ _ λ r. Ensures-pure _ k))
check-Keeps st (aead a) = Ensures-bind _ _ λ r. Ensures-pure _ λ k d h. h
check-Keeps st (cipher x) = Ensures-bind _ _ λ r. Ensures-pure _ λ k d h. h

-- Once a context has settled whether a curve is usable, and whatever is checked next, it gives the same
-- answer again, and nothing is asked of libcrypto for it.
pub curve_usable_settled :
    (st : Prober) (name : String) (x : Capability) (q p : Checked) (u v w : World)
    → (curve_usable st name u).0 ≡ ok q
    → (check q.0 x v).0 ≡ ok p
    → curve_usable p.0 name w ≡ (ok (p.0, q.1), w)
unfolding curve_usable probe
curve_usable_settled st name x q p u v w g h =
    let (e, r, a) = (probe-Holds st (str_append "curve:" name) _).at u q g in
    ask_held p.0 _ _ q.1 _ e w ((check-Keeps q.0 x).at v p h _ e r) a

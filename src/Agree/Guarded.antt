-- ===== src/Agree/Guarded.antt =====
-- Key agreement checks the types of the two keys before libcrypto sees them as a pair, and the peer is
-- validated before a secret is returned (ossl/asym.go).
use ossl_go.Prelude.{
  ℕ, ◌≤◌, ◌<◌, ◌≡◌, refl, sym, subst, ◌∙◌, arith, eq_iff, Bytes, Bool, true, false, not, ◌&&◌,
  String, str_eq, List, [], ◌∷◌, Option, none, some, length,
}
use ossl_go.Prelude.Int.{is_nonpos}
use ossl_go.Errors.{ok, Refusal, type_mismatch, not_ec_cofactor}
use ossl_go.Cgo.{World, Go, Arg, Call, Reply, ptr, pure, fail, ◌>>=◌, ◌>>◌, refuse_if}
use ossl_go.Cgo.Trace.{
  Grows, same, more, Asked, here, later, Extends, Extends-call_pos, Extends-clear_errors,
  extends_rules,
}
use ossl_go.Cgo.Confirms.{
  Confirms, Confirms-bind, Confirms-bind_left, Confirms-using, Confirms-call_pos, Confirms-weaken,
}
use ossl_go.Key.{Key, Pkey, pkey_of, when_open, key_type}
use ossl_go.Sign.{slice_to}
use ossl_go.Asym.{key_operation, sized}
use ossl_go.Agree.{is_on, set_cofactor, agree, derive_secret}

Grows-length : {t u : List Call} → Grows t u → length t ≤ length u
Grows-length same = omega arith
Grows-length (more c g) = omega (arith, Grows-length g)

Asked-length :
    {lib : List Call → Call → Reply} {fn : String} {P : List Arg → Reply → Type 0} {t u : List Call}
    → Asked lib fn P t u
    → length t < length u
Asked-length (here args g p) = omega (arith, Grows-length g)
Asked-length (later c q) = omega (arith, Asked-length q)

-- Every call of `fn`, whatever it was answered.
abbrev pub AnyCall : List Arg → Reply → Type 0
AnyCall args r = Unit

-- No call was made since.
never_same :
    {lib : List Call → Call → Reply} {fn : String} {P : List Arg → Reply → Type 0} {t : List Call}
    → ¬ Asked lib fn P t t
never_same q = absurd (omega (arith, Asked-length q))

guarded :
    (b : Bool) (r : Refusal) (m : Go Bytes) (w : World) {fn : String}
    {P : List Arg → Reply → Type 0}
    → Asked w.lib fn P w.trace ((refuse_if b r >> m) w).1.trace
    → b ≡ false
unfolding ◌>>=◌ pure fail
guarded true r m w q = absurd (never_same q)
guarded false r m w q = refl

opened :
    (o : Option Pkey) (m : Pkey → Go Bytes) (w : World) {fn : String}
    {P : List Arg → Reply → Type 0}
    → Asked w.lib fn P w.trace (when_open o m w).1.trace
    → (p : Pkey) × (o ≡ some p) × Asked w.lib fn P w.trace (m p w).1.trace
unfolding fail
opened none m w q = absurd (never_same q)
opened (some p) m w q = (p, refl, q)

of_refused : (b : Bool) → not b ≡ false → b ≡ true
of_refused true h = refl
of_refused false h = absurd (cc h)

-- libcrypto is never asked about a pair of keys of different types: a call of any function that
-- `derive_secret` makes, EVP_PKEY_derive_set_peer among them, is made only where both keys are open and
-- report the same type.
pub derive_guarded :
    (k peer : Option Key) (opts : Option Bool) (w : World) (fn : String)
    → Asked w.lib fn AnyCall w.trace (derive_secret k peer opts w).1.trace
    → (p q : Pkey) × (pkey_of k ≡ some p) × (pkey_of peer ≡ some q) × (key_type k ≡ key_type peer)
unfolding derive_secret
derive_guarded k peer opts w fn q =
    let (p, e, q1) = opened (pkey_of k) _ w q in
    let (r, f, q2) = opened (pkey_of peer) _ w q1 in
    (
      p,
      r,
      e,
      f,
      (eq_iff _ _).0 (of_refused _ (guarded (not (str_eq (key_type k) (key_type peer))) _ _ w q2)),
    )

slice_to-Extends : (size : ℕ) (r : Reply) → Extends (slice_to size r)
slice_to-Extends size r = search extends_rules

set_cofactor-Extends : (ctx : ℕ) (opts : Option Bool) → Extends (set_cofactor ctx opts)
unfolding set_cofactor
set_cofactor-Extends ctx opts = search extends_rules depth 12

-- The peer at the address was accepted.
abbrev pub AcceptedPeer : ℕ → List Arg → Reply → Type 0
AcceptedPeer peer args r = ((ctx : ℕ) × (args ≡ ptr ctx ∷ ptr peer ∷ [])) × (is_nonpos r.rc ≡ false)

agree-Confirms :
    (k : Option Key) (p q : Pkey) (opts : Option Bool)
    → Confirms "EVP_PKEY_derive_set_peer" (AcceptedPeer q.addr) (agree k p q opts)
unfolding agree key_operation
agree-Confirms k p q opts = Confirms-bind _ _ Extends-clear_errors λ u.
    Confirms-using _ _ _ _ _ λ ctx. Confirms-bind _ _ (Extends-call_pos _ _ _) λ v.
      Confirms-bind _ _ (set_cofactor-Extends ctx opts) λ x.
        Confirms-bind_left _ _
          (Confirms-weaken _ (λ args r h. ((ctx, h.0), h.1)) (Confirms-call_pos _ _ _))
          λ y. unfold sized in search (extends_rules, slice_to-Extends) depth 14

opened_ok :
    (o : Option Pkey) (m : Pkey → Go Bytes) (w : World) (s : Bytes)
    → (when_open o m w).0 ≡ ok s
    → (p : Pkey) × (o ≡ some p) × ((m p w).0 ≡ ok s) × ((when_open o m w).1 ≡ (m p w).1)
unfolding fail
opened_ok none m w s h = absurd (cc h)
opened_ok (some p) m w s h = (p, refl, h, refl)

refuse_if-Extends : (b : Bool) (r : Refusal) → Extends (refuse_if b r)
refuse_if-Extends b r = search extends_rules

checked-Confirms :
    (k peer : Option Key) (p q : Pkey) (opts : Option Bool)
    → Confirms "EVP_PKEY_derive_set_peer" (AcceptedPeer q.addr) (
        refuse_if (not (str_eq (key_type k) (key_type peer))) type_mismatch
        >> (refuse_if (is_on opts && not (str_eq (key_type k) "EC")) not_ec_cofactor
            >> agree k p q opts))
checked-Confirms k peer p q opts =
    Confirms-bind _ _ (refuse_if-Extends _ _)
      λ u. Confirms-bind _ _ (refuse_if-Extends _ _) λ v. agree-Confirms k p q opts

-- If `derive_secret` returns a secret, then the peer's key is open, and EVP_PKEY_derive_set_peer, which
-- validates it, was asked about this key of the peer and gave a positive answer.
pub derive_validated :
    (k peer : Option Key) (opts : Option Bool) (w : World) (s : Bytes)
    → (derive_secret k peer opts w).0 ≡ ok s
    → (q : Pkey) × (pkey_of peer ≡ some q)
      × Asked w.lib "EVP_PKEY_derive_set_peer"
          (AcceptedPeer q.addr)
          w.trace
          (derive_secret k peer opts w).1.trace
unfolding derive_secret
derive_validated k peer opts w s h =
    let (p, e, h1, s1) = opened_ok (pkey_of k) _ w s h in
    let (q, f, h2, s2) = opened_ok (pkey_of peer) _ w s h1 in
    (
      q,
      f,
      subst
          (λ (v : World).
            Asked w.lib "EVP_PKEY_derive_set_peer" (AcceptedPeer q.addr) w.trace v.trace)
          (sym (s1 ∙ s2)) ((checked-Confirms k peer p q opts).at w s h2),
    )

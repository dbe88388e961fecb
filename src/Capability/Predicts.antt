-- ===== src/Capability/Predicts.antt =====
-- What an accepted signature capability says of the operation that it stands for.
use ossl_go.Prelude.{
  Bool, true, false, not, ◌&&◌, String, str_eq, eq_iff, Option, some, ◌≡◌, ◌⊎◌, inl, inr, refl, sym,
  subst, arith, if◌then◌else◌,
}
use ossl_go.Errors.{Error, Result, ok, err, panic}
use ossl_go.Cgo.{World, Go, fail, lift, ◌>>◌, attempt, attempt_result}
use ossl_go.Cgo.Returns.{
  Ensures, Ensures-pure, Ensures-fail, Ensures-abort, Ensures-bind, Ensures-bind_of,
  refuse_if-false,
}
use ossl_go.Context.{Context}
use ossl_go.Key.{Key, key_type, default_digest}
use ossl_go.SignOptions.{SignOptions, check_sign_options, sign_opts}
use ossl_go.Capability.{
  SignatureCapability, Prober, Checked, go_on, capability_options, hashes_internally,
}
use ossl_go.Capability.Check.{check_key, check_digest, check_signature}

-- A curve goes with an EC key, and with no other.
abbrev pub CurveRule : SignatureCapability → Type 0
CurveRule s = str_eq s.key "EC" ≡ not (str_eq s.curve "")

-- An algorithm that hashes the message itself is given no digest.
abbrev pub DigestRule : SignatureCapability → Type 0
DigestRule s = (hashes_internally s.key ≡ false) ⊎ (s.digest ≡ "")

CurveRule-intro :
    (s : SignatureCapability)
    → (not (str_eq s.curve "") && not (str_eq s.key "EC")) ≡ false
    → (str_eq s.key "EC" && str_eq s.curve "") ≡ false
    → CurveRule s
CurveRule-intro s p q = ground arith

DigestRule-intro :
    (s : SignatureCapability)
    → (hashes_internally s.key && not (str_eq s.digest "")) ≡ false
    → DigestRule s
DigestRule-intro s p =
    elim (hashes_internally s.key)
        as (λ b. (b && not (str_eq s.digest "")) ≡ false → (b ≡ false) ⊎ (s.digest ≡ "")) [
          | true ↦ λ q. inr (ground (arith, eq_iff s.digest ""))
          | false ↦ λ q. inl refl
        ]
      p

check_key-CurveRule :
    (c : Context) (s : SignatureCapability) → Ensures (λ u. CurveRule s) (check_key c s)
unfolding check_key
check_key-CurveRule c s = Ensures-bind _ _ λ u. Ensures-bind _ _ λ b. Ensures-bind _ _ λ u.
    Ensures-bind_of _ _ λ w u h. record {
      at = λ v a g.
          CurveRule-intro s ((refuse_if-false _ _).at w u h) ((refuse_if-false _ _).at v a g);
    }

unless_refused :
    (s : SignatureCapability) (b : Bool) (e : Error) (n : Go (Unit {0}))
    → (b ≡ false → DigestRule s)
    → Ensures (λ u. DigestRule s) (if b then fail e else n)
unless_refused s true e n p = Ensures-fail e
unless_refused s false e n p = record { at = λ w a h. p refl }

check_digest-DigestRule :
    (c : Context) (s : SignatureCapability) → Ensures (λ u. DigestRule s) (check_digest c s)
unfolding check_digest
check_digest-DigestRule c s =
    unless_refused s (hashes_internally s.key && not (str_eq s.digest "")) _ _ (DigestRule-intro s)

Ensures-lift : (r : Result (Unit {0})) → Ensures (λ u. r ≡ ok tt) (lift r)
unfolding lift
Ensures-lift r = record { at = λ w a h. h }

attempted :
    (m : Go (Unit {0})) (w : World) (r : Result (Unit {0}))
    → (attempt m w).0 ≡ ok r
    → r ≡ ok tt
    → (m w).0 ≡ ok tt
unfolding attempt
attempted m w r p q = attempted_result (m w).0 r p q
  where
    attempted_result : (x r : Result (Unit {0})) → attempt_result x ≡ ok r → r ≡ ok tt → x ≡ ok tt
    attempted_result (ok u) r p q = refl
    attempted_result (err e) r p q = absurd (cc (p, q))
    attempted_result (panic t) r p q = absurd (cc p)

-- A part that was settled before the rest ran.
go_on-Ensures :
    (P : Type 0) (st : Prober) (r : Result (Unit {0})) (next : Go Checked)
    → (r ≡ ok tt → Ensures (λ q. q.1 ≡ ok tt → P) next)
    → Ensures (λ q. q.1 ≡ ok tt → P) (go_on st r next)
go_on-Ensures P st (ok tt) next p = p refl
go_on-Ensures P st (err e) next p = Ensures-pure _ λ h. absurd (cc h)
go_on-Ensures P st (panic s) next p = Ensures-abort s

options_checked :
    (s : SignatureCapability) (c : Context)
    → Ensures
        (λ u. DigestRule s × (check_sign_options s.key (capability_options s) ≡ ok tt))
        (check_digest c s >> lift (check_sign_options s.key (capability_options s)))
options_checked s c = Ensures-bind_of _ _ λ w u h. record {
  at = λ v a g. ((check_digest-DigestRule c s).at w u h, (Ensures-lift _).at v a g);
}

-- the digest, which a key replaces by its own, has no part in the check of the options
digest_free :
    (t : String) (k : Option Key) (o : SignOptions)
    → check_sign_options t o ≡ ok tt
    → check_sign_options t (sign_opts k (some o)) ≡ ok tt
unfolding check_sign_options sign_opts
digest_free t k o h =
    elim (str_eq o.digest "")
      as (λ b.
        check_sign_options t (if b then record o { digest = default_digest k } else o) ≡ ok tt) [
          | true ↦ h
          | false ↦ h
        ]

check_signature-Ensures :
    (st : Prober) (s : SignatureCapability)
    → Ensures
        (λ q.
          q.1 ≡ ok tt
          → (check_sign_options s.key (capability_options s) ≡ ok tt) × CurveRule s × DigestRule s)
        (check_signature st s)
unfolding check_signature
check_signature-Ensures st s = Ensures-bind_of _ _ λ w r h. go_on-Ensures _ st r _ λ e.
    let curve = (check_key-CurveRule st.ctx s).at w tt (attempted (check_key st.ctx s) w r h e) in
    Ensures-bind _ _ λ q. go_on-Ensures _ q.0 q.1 _ λ g. Ensures-bind_of _ _ λ v r i.
      Ensures-pure _ λ f.
        let (digest, options) = (options_checked s q.0.ctx).at v tt (attempted _ v r i f) in
        (options, curve, digest)

-- If a signature capability is accepted, then Sign and Verify do not refuse its options for a key of that
-- type, whatever digest the key puts in by default; a curve is given for an EC key, and for
-- no other; and no digest is given for an algorithm that hashes the message itself.
pub check_signature_predicts :
    (st : Prober) (s : SignatureCapability) (k : Option Key) (w : World) (q : Prober)
    → (check_signature st s w).0 ≡ ok (q, ok tt)
    → key_type k ≡ s.key
    → (check_sign_options (key_type k) (sign_opts k (some (capability_options s))) ≡ ok tt)
      × CurveRule s
      × DigestRule s
check_signature_predicts st s k w q h t =
    let (options, curve, digest) = (check_signature-Ensures st s).at w (q, ok tt) h refl in
    (
      subst (λ t. check_sign_options t (sign_opts k (some (capability_options s))) ≡ ok tt) (sym t)
          (digest_free s.key k _ options),
      curve,
      digest,
    )

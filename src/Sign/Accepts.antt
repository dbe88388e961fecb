-- ===== src/Sign/Accepts.antt =====
-- A verification accepts only what libcrypto accepted.
use ossl_go.Prelude.{
  ℕ, ◌≡◌, refl, sym, subst, Bytes, String, str_eq, List, [], ◌∷◌, Option, arith, length, ◌==◌,
}
use ossl_go.Prelude.Int.{pos}
use ossl_go.Errors.{Result, ok}
use ossl_go.Cgo.{
  World, Go, Arg, ptr, bytes, Reply, call, lift, pure, fail, ◌>>=◌, clear_errors, reject_with,
}
use ossl_go.Cgo.Trace.{
  Asked, here, same, Extends, Extends-if, Extends-pure, Extends-lift, Extends-clear_errors,
  Extends-call_pos, extends_rules,
}
use ossl_go.Cgo.Confirms.{
  AnsweredOne, Confirms-weaken, Confirms, Confirms-fail, Confirms-if, Confirms-bind,
  Confirms-bind_of, Confirms-using, Confirms-with_cstring,
}
use ossl_go.Params.Calls.{params_extend}
use ossl_go.Context.{Context}
use ossl_go.Key.{Key, Pkey, pkey_of}
use ossl_go.Key.Balance.{Confirms-when_open}
use ossl_go.SignOptions.{SignOptions, sign_opts}
use ossl_go.SignOptions.Calls.{apply_sign_options-Extends, set_pkey_params-Extends}
use ossl_go.Sign.{
  as_der, with_digest_name, verdict, verify_with, verify, digest_size, check_digest_options,
  apply_digest_param, digest_context, verify_digest,
}

module _ {ℓ} {A : Type ℓ} {fn : String} {P : List Arg → Reply → Type 0} where
  pub with_digest_name-Confirms :
      (digest : String) (body : Arg → Go A)
      → ((cd : Arg) → Confirms fn P (body cd))
      → Confirms fn P (with_digest_name digest body)
  unfolding with_digest_name
  with_digest_name-Confirms digest body k =
      Confirms-if (str_eq digest "") _ _ (k _) (Confirms-with_cstring digest _ (k _))

-- The signature `sig`, as libcrypto reads it, and `msg` were given to a call that answered 1.
abbrev pub Accepted : Option Key → SignOptions → Bytes → Bytes → List Arg → Reply → Type 0
Accepted k o msg sig args r =
    (ctx : ℕ) × (der : Bytes) × (as_der k o sig ≡ ok der)
    × (args ≡ ptr ctx ∷ bytes der ∷ bytes msg ∷ [])
    × (r.rc ≡ pos 1)

pub lifted : {A : Type 0} {r : Result A} {a : A} (w : World) → (lift r w).0 ≡ ok a → r ≡ ok a
unfolding lift
lifted w h = h

module _ (op : String) (r : Reply) (w : World) where
  verdict_one : (a : Unit {0}) → (verdict op r w).0 ≡ ok a → r.rc ≡ pos 1
  unfolding pure fail clear_errors reject_with ◌>>=◌
  verdict_one a h = ground arith

  verdict_trace : (verdict op r w).1.trace ≡ w.trace
  unfolding pure fail clear_errors reject_with ◌>>=◌
  verdict_trace = ground arith

-- The last call and its verdict.
pub verdict-Answered :
    (f : String) (args : List Arg) → Confirms f (AnsweredOne args) (call f args >>= verdict f)
unfolding call ◌>>=◌
verdict-Answered f args = record {
  at = λ w a h.
      let r = w.lib w.trace (record { fn = f; args = args }) in
      let one : r.rc ≡ pos 1 = verdict_one f r _ a h in
      let t : ((call f args >>= verdict f) w).1.trace ≡ record { fn = f; args = args } ∷ w.trace =
        verdict_trace f r _ in
      subst (Asked w.lib f _ w.trace) (sym t) (here args same (refl, one));
}

verdict-Confirms :
    (f : String) (k : Option Key) (o : SignOptions) (msg sig der : Bytes) (ctx : ℕ)
    → as_der k o sig ≡ ok der
    → Confirms f
        (Accepted k o msg sig)
        (call f (ptr ctx ∷ bytes der ∷ bytes msg ∷ []) >>= verdict f)
verdict-Confirms f k o msg sig der ctx e =
    Confirms-weaken _ (λ args r q. (ctx, der, e, q.0, q.1)) (verdict-Answered f _)

verify_with-Confirms :
    (k : Option Key) (p : Pkey) (msg sig : Bytes) (o : SignOptions)
    → Confirms "EVP_DigestVerify" (Accepted k o msg sig) (verify_with k p msg sig o)
unfolding verify_with
verify_with-Confirms k p msg sig o = Confirms-bind _ _ (Extends-lift _) λ _.
    Confirms-bind _ _ Extends-clear_errors λ _. Confirms-using _ _ _ _ _ λ mdctx.
      with_digest_name-Confirms o.digest _ λ cd. Confirms-bind _ _ (Extends-call_pos _ _ _) λ init.
        Confirms-bind _ _ (apply_sign_options-Extends _ _ o) λ _.
          Confirms-bind_of _ _ (Extends-lift _)
            λ w der e. verdict-Confirms _ k o msg sig der mdctx (lifted w e)

-- `verify` returns nil only if EVP_DigestVerify was given this message and this signature, re-encoded
-- as DER where the options ask for P1363, and answered exactly 1: not for another positive
-- answer, and not for a negative one.
pub verify_sound :
    (k : Option Key) (msg sig : Bytes) (opts : Option SignOptions) (w : World)
    → (verify k msg sig opts w).0 ≡ ok tt
    → Asked w.lib "EVP_DigestVerify"
        (Accepted k (sign_opts k opts) msg sig)
        w.trace
        (verify k msg sig opts w).1.trace
unfolding verify
verify_sound k msg sig opts w h =
    (Confirms-when_open (pkey_of k) _ λ p.
        Confirms-if (length sig == 0) _ _ (Confirms-fail _)
          (verify_with-Confirms k p msg sig (sign_opts k opts))).at
      w tt h

digest_size-Extends : (c : Context) (name : String) → Extends (digest_size c name)
unfolding digest_size
digest_size-Extends c name = search extends_rules depth 12

check_digest_options-Extends :
    (c : Context) (t : String) (o : SignOptions) (n : ℕ) → Extends (check_digest_options c t o n)
unfolding check_digest_options
check_digest_options-Extends c t o n = search (extends_rules, digest_size-Extends) depth 12

apply_digest_param-Extends : (pctx : ℕ) (digest : String) → Extends (apply_digest_param pctx digest)
unfolding apply_digest_param
apply_digest_param-Extends pctx digest =
    set_pkey_params-Extends pctx _ _ (search (extends_rules, params_extend) depth 12)

digest_context-Confirms {ℓ} :
    {A : Type ℓ} {fn : String} {P : List Arg → Reply → Type 0} (k : Option Key) (p : Pkey)
    (digest : Bytes) (o : SignOptions) (init : String) (body : ℕ → Go A)
    → ((pctx : ℕ) → Confirms fn P (body pctx))
    → Confirms fn P (digest_context k p digest o init body)
unfolding digest_context
digest_context-Confirms k p digest o init body b =
    Confirms-bind _ _ (check_digest_options-Extends _ _ o _) λ _.
      Confirms-bind _ _ Extends-clear_errors λ _. Confirms-using _ _ _ _ _ λ pctx.
        Confirms-bind _ _ (Extends-call_pos _ _ _) λ _.
          Confirms-bind _ _ (Extends-if _ _ _ (apply_digest_param-Extends pctx _) (Extends-pure tt))
            λ _. Confirms-bind _ _ (apply_sign_options-Extends _ _ o) λ _. b pctx

-- The same of a digest: `verify_digest` returns nil only if EVP_PKEY_verify was given this digest and
-- this signature, re-encoded as DER where the options ask for P1363, and answered exactly 1.
pub verify_digest_sound :
    (k : Option Key) (digest sig : Bytes) (opts : Option SignOptions) (w : World)
    → (verify_digest k digest sig opts w).0 ≡ ok tt
    → Asked w.lib "EVP_PKEY_verify"
        (Accepted k (sign_opts k opts) digest sig)
        w.trace
        (verify_digest k digest sig opts w).1.trace
unfolding verify_digest
verify_digest_sound k digest sig opts w h =
    let o = sign_opts k opts in
    (Confirms-when_open (pkey_of k) _ λ p. Confirms-if (length sig == 0) _ _ (Confirms-fail _) (
        digest_context-Confirms k p digest o _ _ λ pctx.
          Confirms-bind_of _ _ (Extends-lift _)
            λ v der e. verdict-Confirms _ k o digest sig der pctx (lifted v e))).at
      w tt h

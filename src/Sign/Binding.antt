-- ===== src/Sign/Binding.antt =====
-- A context string that the caller asks for reaches libcrypto.
use ossl_go.Prelude.{
  ℕ, refl, str_eq, false, [], ◌∷◌, none, ◌≡◌, Bytes, true, String, List, Option, some, length, ◌==◌,
}
use ossl_go.Prelude.Int.{pos, is_nonpos}
use ossl_go.Errors.{Result, ok}
use ossl_go.Cgo.{World, Arg, num, bytes, ptr, null, Reply, Go, ◌>>=◌, lift}
use ossl_go.Cgo.Trace.{
  Asked, Extends, Extends-lift, Extends-clear_errors, Extends-call_pos, extends_rules,
}
use ossl_go.Cgo.Confirms.{
  Confirms, Confirms-fail, Confirms-if, Confirms-bind, Confirms-bind_of, Confirms-bind_left,
  Confirms-using, Confirms-call_pos, Confirms-weaken, Confirms-new_error,
}
use ossl_go.Cgo.Ordered.{
  Demand, AskedInOrder, Ordered, Ordered-nothing, Ordered-fail, Ordered-if, Ordered-bind,
  Ordered-bind_of, Ordered-using, Ordered-with_cstring, Ordered-choose, Ordered-then,
  Ordered-call_pos, Ordered-weaken,
}
use ossl_go.Key.{when_open, Key, Pkey, pkey_of, key_type}
use ossl_go.Key.Balance.{Confirms-when_open}
use ossl_go.SignOptions.{SignOptions, apply_sign_options, sign_opts, check_sign_options}
use ossl_go.SignOptions.Applied.{SetsContext, SetsContextOn, apply_sign_options-Confirms}
use ossl_go.SignOptions.Calls.{apply_sign_options-Extends}
use ossl_go.SignOptions.Check.{takes_context, check_sound}
use ossl_go.Sign.{with_digest_name, sized_call, verdict, sign_with, sign, verify_with, verify}
use ossl_go.Sign.Accepts.{with_digest_name-Confirms, lifted}

sized_call-Extends : (f : String) (before after : List Arg) → Extends (sized_call f before after)
unfolding sized_call
sized_call-Extends f before after = search extends_rules depth 12

verdict-Extends : (op : String) (r : _) → Extends (verdict op r)
verdict-Extends op r = search extends_rules depth 12

honoured_context :
    (t : String) (o : SignOptions) (context : Bytes)
    → check_sign_options t o ≡ ok tt
    → o.context ≡ some context
    → takes_context t ≡ true
honoured_context t o context h e = (check_sound t o h).context (λ n. absurd (cc (e, n)))

module _ {ds : ℕ × ℕ → List Demand} where
  with_digest_name-Ordered :
      (digest : String) (body : Arg → Go Bytes)
      → ((cd : Arg) → Ordered ds (body cd))
      → Ordered ds (with_digest_name digest body)
  unfolding with_digest_name
  with_digest_name-Ordered digest body k =
      Ordered-if (str_eq digest "") _ _ (k _) (Ordered-with_cstring digest _ (k _))

  Ordered-when_open :
      (o : Option Pkey) (body : Pkey → Go Bytes)
      → ((p : Pkey) → o ≡ some p → Ordered ds (body p))
      → Ordered ds (when_open o body)
  Ordered-when_open none body b = Ordered-fail _
  Ordered-when_open (some p) body b = b p refl

-- The operation at `mdctx` was initialised for the key, and what the call wrote to its second argument,
-- which the model has as the number `len` of the reply, is the address `pctx` of its EVP_PKEY_CTX.
abbrev pub Initialised : Option Key → ℕ × ℕ → List Arg → Reply → Type 0
Initialised k (mdctx, pctx) args r =
    (p : Pkey) × (cd : Arg) × (pkey_of k ≡ some p)
    × (args ≡ ptr mdctx ∷ cd ∷ null ∷ null ∷ ptr p.addr ∷ null ∷ [])
    × (r.len ≡ pctx)
    × (is_nonpos r.rc ≡ false)

-- The operation at `mdctx` signed the message, into a buffer.
abbrev pub Signed : Bytes → ℕ → List Arg → Reply → Type 0
Signed msg mdctx args r =
    (n : ℕ) × (args ≡ ptr mdctx ∷ num (pos n) ∷ bytes msg ∷ []) × (is_nonpos r.rc ≡ false)

-- The options of the operation are given the context, and then it signs.
abbrev pub sign_steps : Bytes → Bytes → ℕ → ℕ → List Demand
sign_steps msg context mdctx pctx =
    record { fn = "EVP_PKEY_CTX_set_params"; holds = SetsContextOn pctx context }
    ∷ record { fn = "EVP_DigestSign"; holds = Signed msg mdctx }
    ∷ []

-- The operation is initialised before that.
abbrev pub binding : Option Key → Bytes → Bytes → ℕ × ℕ → List Demand
binding k msg context (mdctx, pctx) =
    record { fn = "EVP_DigestSignInit_ex"; holds = Initialised k (mdctx, pctx) }
    ∷ sign_steps msg context mdctx pctx

sized_call-Signed :
    (msg : Bytes) (mdctx : ℕ)
    → Confirms "EVP_DigestSign"
        (Signed msg mdctx)
        (sized_call "EVP_DigestSign" (ptr mdctx ∷ []) (bytes msg ∷ []))
unfolding sized_call
sized_call-Signed msg mdctx = Confirms-bind _ _ (Extends-call_pos _ _ _) λ r.
    Confirms-if (r.len == 0) _ _ (Confirms-new_error _) (
      Confirms-bind_left _ _
        (Confirms-weaken _ (λ args r' q. (r.len, q.0, q.1)) (Confirms-call_pos _ _ _))
        λ r'. search extends_rules)

module _ (k : Option Key) (msg context : Bytes) (o : SignOptions)
    (e : o.context ≡ some context) where
  -- the steps after the initialisation
  sign_steps-Ordered :
      (mdctx pctx : ℕ) (f : Bytes → Result Bytes)
      → takes_context (key_type k) ≡ true
      → Ordered
          (λ (_ : Unit {0}). sign_steps msg context mdctx pctx)
          (apply_sign_options pctx (key_type k) o >>= λ _.
            sized_call "EVP_DigestSign" (ptr mdctx ∷ []) (bytes msg ∷ []) >>= λ out. lift (f out))
  sign_steps-Ordered mdctx pctx f takes =
      Ordered-then _ _ _ _ (apply_sign_options-Extends _ _ o)
        (apply_sign_options-Confirms pctx o context e (key_type k) takes)
        λ _.
          Ordered-then _ _ _ _ (sized_call-Extends _ _ _) (sized_call-Signed msg mdctx)
            λ out. Ordered-nothing _ (Extends-lift _)

  sign_with-Ordered :
      (p : Pkey) → pkey_of k ≡ some p → Ordered (binding k msg context) (sign_with k p msg o)
  unfolding sign_with
  sign_with-Ordered p open_key = Ordered-bind_of _ _ (Extends-lift _) λ w u h.
      let takes = honoured_context (key_type k) o context (lifted w h) e in
      Ordered-bind _ _ Extends-clear_errors λ _. Ordered-using _ _ _ _ _ λ mdctx.
        with_digest_name-Ordered o.digest _ λ cd.
          Ordered-choose (λ pctx. (mdctx, pctx)) _
            (Ordered-weaken _ (λ pctx args r q. (p, cd, open_key, q.0, q.1, q.2))
              (Ordered-call_pos _ _ _ (sign_steps msg context mdctx) _
                λ init. sign_steps-Ordered mdctx init.len _ takes))

  verify_with-Confirms :
      (sig : Bytes) (p : Pkey)
      → Confirms "EVP_PKEY_CTX_set_params" (SetsContext context) (verify_with k p msg sig o)
  unfolding verify_with
  verify_with-Confirms sig p = Confirms-bind_of _ _ (Extends-lift _) λ w u h.
      let takes = honoured_context (key_type k) o context (lifted w h) e in
      Confirms-bind _ _ Extends-clear_errors λ _. Confirms-using _ _ _ _ _ λ mdctx.
        with_digest_name-Confirms o.digest _ λ cd.
          Confirms-bind _ _ (Extends-call_pos _ _ _) λ init.
            Confirms-bind_left _ _
              (Confirms-weaken _ (λ args r q. q.1)
                (apply_sign_options-Confirms init.len o context e (key_type k) takes))
              λ _. search (extends_rules, verdict-Extends) depth 12

-- A signature made under a context string was bound to it: `sign` returns one only after
-- EVP_DigestSignInit_ex initialised an operation for the key, then the EVP_PKEY_CTX that it answered
-- with was given that context and accepted it, and then the same operation signed the message.
pub sign_binds_context :
    (k : Option Key) (msg : Bytes) (opts : Option SignOptions) (context sig : Bytes) (w : World)
    → (sign_opts k opts).context ≡ some context
    → (sign k msg opts w).0 ≡ ok sig
    → (op : ℕ × ℕ) × AskedInOrder w.lib
        (binding k msg context op)
        w.trace
        (sign k msg opts w).1.trace
unfolding sign
sign_binds_context k msg opts context sig w e h =
    (Ordered-when_open (pkey_of k) _ (sign_with-Ordered k msg context (sign_opts k opts) e)).at w
      sig h

-- A verification under a context string that succeeds gave libcrypto that context, which it accepted.
pub verify_binds_context :
    (k : Option Key) (msg sig : Bytes) (opts : Option SignOptions) (context : Bytes) (w : World)
    → (sign_opts k opts).context ≡ some context
    → (verify k msg sig opts w).0 ≡ ok tt
    → Asked w.lib "EVP_PKEY_CTX_set_params"
        (SetsContext context)
        w.trace
        (verify k msg sig opts w).1.trace
unfolding verify
verify_binds_context k msg sig opts context w e h =
    (Confirms-when_open (pkey_of k) _ λ p.
        Confirms-if (length sig == 0) _ _ (Confirms-fail _)
          (verify_with-Confirms k msg context (sign_opts k opts) e sig p)).at
      w tt h

-- ===== src/SignOptions/Applied.antt =====
-- What libcrypto was told of the options when `applySignOptions` succeeds.
use ossl_go.Prelude.{
  ℕ, ◌≡◌, refl, ap, sym, ◌∙◌, subst, Bytes, true, false, not, String, str_append, str_eq, List, [],
  ◌∷◌, ◌++◌, Option, some, Bool-cases, inl, inr, eq_iff, arith,
}
use ossl_go.Prelude.Int.{is_nonpos}
use ossl_go.Cgo.{Go, ◌>>=◌, Arg, ptr, params, Param, Reply, octet_string, utf8_string, end_mark}
use ossl_go.Cgo.Trace.{Extends, extends_rules}
use ossl_go.Cgo.Confirms.{
  Confirms, Confirms-bind_of, Confirms-bind_left, Confirms-call_pos, Confirms-weaken, Confirms-when,
  Confirms-if,
}
use ossl_go.Cgo.Returns.{Ensures}
use ossl_go.Params.{Builder, new_params, utf8}
use ossl_go.Params.Calls.{c-Extends, params_extend, Confirms-with_params}
use ossl_go.Params.Entries.{
  Entry, args_entries, Holds, Holds-bind, c_held, new_params-Holds, utf8-Appends, octets-Appends,
}
use ossl_go.SignOptions.{
  SignOptions, is_rsa, is_pqc, is_set, add_context, set_pkey_params, set_instance, apply_context,
  apply_ed25519, apply_ed448, apply_sign_options,
}
use ossl_go.SignOptions.Calls.{apply_deterministic_pqc-Extends}
use ossl_go.SignOptions.Check.{takes_context}

-- The call was for the context at `pctx`.
abbrev OnContext : ℕ → List Arg → Type 0
OnContext pctx args = (ps : List Param) × (args ≡ ptr pctx ∷ params ps ∷ [])

-- The call was accepted, and its parameters are `kvs` and an end mark.
abbrev SetTo : ℕ → List Entry → List Arg → Reply → Type 0
SetTo pctx kvs args r =
    OnContext pctx args
    × (args_entries args ≡ kvs ++ ("", end_mark) ∷ [])
    × (is_nonpos r.rc ≡ false)

set_pkey_params-Confirms :
    (kvs : List Entry) (pctx : ℕ) (build : Go Builder) (op : String)
    → Extends build
    → Ensures (Holds kvs) build
    → Confirms "EVP_PKEY_CTX_set_params" (SetTo pctx kvs) (set_pkey_params pctx build op)
unfolding set_pkey_params
set_pkey_params-Confirms kvs pctx build op e h = Confirms-with_params build _ e λ w p b.
    Confirms-bind_of _ _ (c-Extends p) λ w' p' c.
      Confirms-bind_left _ _
        (Confirms-weaken _
          (λ args r q.
            ((_, q.0), ap args_entries q.0 ∙ (c_held kvs p (h.at w p b)).at w' p' c, q.1))
          (Confirms-call_pos _ _ _))
        λ r. search extends_rules

-- Some entry is the context string `context`.
abbrev pub SetsContext : Bytes → List Arg → Reply → Type 0
SetsContext context args r =
    (before : List Entry) × (args_entries args
      ≡ before ++ ("context-string", octet_string context) ∷ ("", end_mark) ∷ [])
    × (is_nonpos r.rc ≡ false)

-- The same of a call for the context at `pctx`.
abbrev pub SetsContextOn : ℕ → Bytes → List Arg → Reply → Type 0
SetsContextOn pctx context args r = OnContext pctx args × SetsContext context args r

set_instance-Confirms :
    (pctx : ℕ) (name : String) (o : SignOptions) (context : Bytes)
    → o.context ≡ some context
    → Confirms "EVP_PKEY_CTX_set_params" (SetsContextOn pctx context) (set_instance pctx name o)
set_instance-Confirms pctx name o context e =
    subst
      (λ c. Confirms "EVP_PKEY_CTX_set_params" (SetsContextOn pctx context) (
        set_pkey_params pctx (new_params >>= utf8 "instance" name >>= add_context c)
          (str_append "EVP_PKEY_CTX_set_params(" (str_append name ")"))))
      (sym e)
      (Confirms-weaken _ (λ args r q. (q.0, (("instance", utf8_string name) ∷ [], q.1, q.2)))
        (set_pkey_params-Confirms
          (("instance", utf8_string name) ∷ ("context-string", octet_string context) ∷ []) pctx _ _
          (search (extends_rules, params_extend) depth 12)
          (Holds-bind _ _ _ _ (Holds-bind _ _ _ _ new_params-Holds (utf8-Appends "instance" name))
            (octets-Appends "context-string" context))))

apply_context-Confirms :
    (pctx : ℕ) (c : Option Bytes) (context : Bytes)
    → c ≡ some context
    → Confirms "EVP_PKEY_CTX_set_params" (SetsContextOn pctx context) (apply_context pctx c)
unfolding apply_context
apply_context-Confirms pctx c context e =
    subst
      (λ c. Confirms "EVP_PKEY_CTX_set_params" (SetsContextOn pctx context) (apply_context pctx c))
      (sym e)
      (Confirms-weaken _ (λ args r q. (q.0, ([], q.1, q.2)))
        (set_pkey_params-Confirms (("context-string", octet_string context) ∷ []) pctx _ _
          (search (extends_rules, params_extend) depth 12)
          (Holds-bind _ _ _ _ new_params-Holds (octets-Appends "context-string" context))))

other_than : (t s : String) → takes_context s ≡ false → takes_context t ≡ true → str_eq t s ≡ false
other_than t s n h = elim (Bool-cases (str_eq t s)) [
  | inl e ↦
      (let same : t ≡ s = (eq_iff t s).0 e in
        absurd (cc (n, subst (λ u. takes_context u ≡ true) same h)))
  | inr e ↦ e
]

-- A key whose algorithm takes a context is neither an RSA key nor an EC key.
takes_context-other :
    (t : String) → takes_context t ≡ true → (is_rsa t ≡ false) × (str_eq t "EC" ≡ false)
unfolding ossl_go.Names.has_prefix
takes_context-other t h =
    let r = other_than t "RSA" refl h in
    let p = other_than t "RSA-PSS" refl h in (ground (arith, r, p), other_than t "EC" refl h)

module _ (pctx : ℕ) (o : SignOptions) (context : Bytes) (e : o.context ≡ some context) where
  apply_ed25519-Confirms :
      Confirms "EVP_PKEY_CTX_set_params" (SetsContextOn pctx context) (apply_ed25519 pctx o)
  unfolding apply_ed25519
  apply_ed25519-Confirms = Confirms-if o.prehash _ _ (set_instance-Confirms pctx _ o context e) (
      Confirms-when (is_set o.context) _ _ (λ s. set_instance-Confirms pctx _ o context e)
        λ n. absurd (cc (e, n)))

  apply_ed448-Confirms :
      Confirms "EVP_PKEY_CTX_set_params" (SetsContextOn pctx context) (apply_ed448 pctx o)
  unfolding apply_ed448
  apply_ed448-Confirms =
      Confirms-if (not o.prehash) _ _ (apply_context-Confirms pctx o.context context e)
        (set_instance-Confirms pctx _ o context e)

  pub apply_sign_options-Confirms :
      (t : String)
      → takes_context t ≡ true
      → Confirms "EVP_PKEY_CTX_set_params"
          (SetsContextOn pctx context)
          (apply_sign_options pctx t o)
  unfolding apply_sign_options
  apply_sign_options-Confirms t h =
      Confirms-when (is_rsa t) _ _ (λ r. absurd (cc (r, (takes_context-other t h).0)))
        λ r.
          Confirms-when (str_eq t "EC") _ _ (λ c. absurd (cc (c, (takes_context-other t h).1)))
            λ c.
              Confirms-when (str_eq t "ED25519") _ _ (λ d. apply_ed25519-Confirms)
                λ d.
                  Confirms-when (str_eq t "ED448") _ _ (λ f. apply_ed448-Confirms)
                    λ f.
                      Confirms-when (is_pqc t) _ _
                        (λ q.
                          Confirms-bind_left _ _ (apply_context-Confirms pctx o.context context e)
                            λ u. search (extends_rules, apply_deterministic_pqc-Extends))
                        λ q. absurd (ground (arith, d, f, q, h))

-- ===== src/SignOptions/Calls.antt =====
-- Applying the options only adds calls to the trace.
use ossl_go.Prelude.{ℕ, String, Option, none, some, Bytes}
use ossl_go.Cgo.{Go}
use ossl_go.Cgo.Trace.{Extends, Extends-pure, extends_rules}
use ossl_go.Params.{Builder}
use ossl_go.Params.Calls.{params_extend, octets-Extends, c-Extends, Extends-with_params}
use ossl_go.SignOptions.{
  SignOptions, add_context, set_pkey_params, apply_context, apply_rsa, apply_ed25519, apply_ed448,
  apply_deterministic_pqc, apply_deterministic_ecdsa, apply_sign_options,
}

pub set_pkey_params-Extends :
    (pctx : ℕ) (build : Go Builder) (op : String)
    → Extends build
    → Extends (set_pkey_params pctx build op)
unfolding set_pkey_params
set_pkey_params-Extends pctx build op b =
    Extends-with_params build _ b λ p. search (extends_rules, c-Extends)

add_context-Extends : (c : Option Bytes) → (p : Builder) → Extends (add_context c p)
add_context-Extends none p = Extends-pure p
add_context-Extends (some context) p = octets-Extends "context-string" context p

ruleset applied = (extends_rules, set_pkey_params-Extends, params_extend, add_context-Extends)

apply_context-Extends : (pctx : ℕ) (c : Option Bytes) → Extends (apply_context pctx c)
unfolding apply_context
apply_context-Extends pctx none = Extends-pure tt
apply_context-Extends pctx (some context) = search applied depth 12

apply_rsa-Extends :
    (pctx : ℕ) (o : SignOptions) (digest : String) → Extends (apply_rsa pctx o digest)
unfolding apply_rsa
apply_rsa-Extends pctx o digest = search extends_rules depth 12

apply_ed25519-Extends : (pctx : ℕ) (o : SignOptions) → Extends (apply_ed25519 pctx o)
unfolding apply_ed25519
apply_ed25519-Extends pctx o = search applied depth 14

apply_ed448-Extends : (pctx : ℕ) (o : SignOptions) → Extends (apply_ed448 pctx o)
unfolding apply_ed448
apply_ed448-Extends pctx o = search (applied, apply_context-Extends) depth 14

pub apply_deterministic_pqc-Extends : (pctx : ℕ) → Extends (apply_deterministic_pqc pctx)
unfolding apply_deterministic_pqc
apply_deterministic_pqc-Extends pctx = search applied depth 12

apply_deterministic_ecdsa-Extends : (pctx : ℕ) → Extends (apply_deterministic_ecdsa pctx)
unfolding apply_deterministic_ecdsa
apply_deterministic_ecdsa-Extends pctx = search applied depth 12

pub apply_sign_options-Extends :
    (pctx : ℕ) (t : String) (o : SignOptions) → Extends (apply_sign_options pctx t o)
unfolding apply_sign_options
apply_sign_options-Extends pctx t o =
    search
      (
        extends_rules, apply_context-Extends, apply_rsa-Extends, apply_ed25519-Extends,
        apply_ed448-Extends, apply_deterministic_pqc-Extends, apply_deterministic_ecdsa-Extends,
      )
      depth 14

-- ===== src/SignOptions/Balance.antt =====
-- Applying the options releases every arena that it builds.
use ossl_go.Prelude.{ℕ, String, Option, none, some, Bytes}
use ossl_go.Cgo.{Go}
use ossl_go.Cgo.Balance.{Balanced, Balanced-pure, balance_rules}
use ossl_go.Params.{Builder}
use ossl_go.Params.Arena.{Adds, Builds, builds_rules, Adds-pure, octets-Adds}
use ossl_go.Params.Freed.{Balanced-with_params, c-Balanced}
use ossl_go.SignOptions.{
  SignOptions, add_context, set_pkey_params, apply_context, apply_rsa, apply_ed25519, apply_ed448,
  apply_deterministic_pqc, apply_deterministic_ecdsa, apply_sign_options,
}

pub set_pkey_params-Balanced :
    (pctx : ℕ) (build : Go Builder) (op : String)
    → Builds build
    → Balanced (set_pkey_params pctx build op)
unfolding set_pkey_params
set_pkey_params-Balanced pctx build op b =
    Balanced-with_params build _ b λ p. search (balance_rules, c-Balanced)

add_context-Adds : (c : Option Bytes) → Adds (add_context c)
add_context-Adds none = Adds-pure
add_context-Adds (some context) = octets-Adds "context-string" context

ruleset applied = (balance_rules, set_pkey_params-Balanced, builds_rules, add_context-Adds)

apply_context-Balanced : (pctx : ℕ) (c : Option Bytes) → Balanced (apply_context pctx c)
unfolding apply_context
apply_context-Balanced pctx none = Balanced-pure tt
apply_context-Balanced pctx (some context) = search applied depth 12

apply_rsa-Balanced :
    (pctx : ℕ) (o : SignOptions) (digest : String) → Balanced (apply_rsa pctx o digest)
unfolding apply_rsa
apply_rsa-Balanced pctx o digest = search balance_rules depth 12

apply_ed25519-Balanced : (pctx : ℕ) (o : SignOptions) → Balanced (apply_ed25519 pctx o)
unfolding apply_ed25519
apply_ed25519-Balanced pctx o = search applied depth 14

apply_ed448-Balanced : (pctx : ℕ) (o : SignOptions) → Balanced (apply_ed448 pctx o)
unfolding apply_ed448
apply_ed448-Balanced pctx o = search (applied, apply_context-Balanced) depth 14

apply_deterministic_pqc-Balanced : (pctx : ℕ) → Balanced (apply_deterministic_pqc pctx)
unfolding apply_deterministic_pqc
apply_deterministic_pqc-Balanced pctx = search applied depth 12

apply_deterministic_ecdsa-Balanced : (pctx : ℕ) → Balanced (apply_deterministic_ecdsa pctx)
unfolding apply_deterministic_ecdsa
apply_deterministic_ecdsa-Balanced pctx = search applied depth 12

pub apply_sign_options-Balanced :
    (pctx : ℕ) (t : String) (o : SignOptions) → Balanced (apply_sign_options pctx t o)
unfolding apply_sign_options
apply_sign_options-Balanced pctx t o =
    search
      (
        balance_rules, apply_context-Balanced, apply_rsa-Balanced, apply_ed25519-Balanced,
        apply_ed448-Balanced, apply_deterministic_pqc-Balanced, apply_deterministic_ecdsa-Balanced,
      )
      depth 14

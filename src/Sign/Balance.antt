-- ===== src/Sign/Balance.antt =====
-- Signing and verifying release every C object, string and arena that they acquire, on every path.
use ossl_go.Prelude.{ℕ, Bytes, String, str_eq, List, Option, length, ◌==◌}
use ossl_go.Cgo.{Go, Arg, Reply}
use ossl_go.Cgo.Balance.{Balanced, Balanced-fail, Balanced-if, Balanced-with_cstring, balance_rules}
use ossl_go.Params.Arena.{builds_rules}
use ossl_go.Context.{Context}
use ossl_go.Key.{Key, Pkey, pkey_of}
use ossl_go.Key.Balance.{Balanced-when_open}
use ossl_go.SignOptions.{SignOptions, sign_opts}
use ossl_go.SignOptions.Balance.{apply_sign_options-Balanced, set_pkey_params-Balanced}
use ossl_go.Sign.{
  with_digest_name, slice_to, sized_call, verdict, sign_with, sign, verify_with, verify,
  digest_size, check_digest_options, apply_digest_param, digest_context, sign_digest, verify_digest,
}

module _ {ℓ} {A : Type ℓ} where
  with_digest_name-Balanced :
      (digest : String) (body : Arg → Go A)
      → ((cd : Arg) → Balanced (body cd))
      → Balanced (with_digest_name digest body)
  unfolding with_digest_name
  with_digest_name-Balanced digest body k =
      Balanced-if (str_eq digest "") _ _ (k _) (Balanced-with_cstring digest _ (k _))

slice_to-Balanced : (size : ℕ) (r : Reply) → Balanced (slice_to size r)
slice_to-Balanced size r = search balance_rules

pub sized_call-Balanced :
    (f : String) (before after : List Arg) → Balanced (sized_call f before after)
unfolding sized_call
sized_call-Balanced f before after = search (balance_rules, slice_to-Balanced) depth 12

pub verdict-Balanced : (op : String) (r : Reply) → Balanced (verdict op r)
verdict-Balanced op r = search balance_rules depth 12

ruleset parts = (
  balance_rules, apply_sign_options-Balanced, sized_call-Balanced, verdict-Balanced,
  with_digest_name-Balanced,
)

sign_with-Balanced :
    (k : Option Key) (p : Pkey) (msg : Bytes) (o : SignOptions) → Balanced (sign_with k p msg o)
unfolding sign_with
sign_with-Balanced k p msg o = search parts depth 16

verify_with-Balanced :
    (k : Option Key) (p : Pkey) (msg sig : Bytes) (o : SignOptions)
    → Balanced (verify_with k p msg sig o)
unfolding verify_with
verify_with-Balanced k p msg sig o = search parts depth 16

digest_size-Balanced : (c : Context) (name : String) → Balanced (digest_size c name)
unfolding digest_size
digest_size-Balanced c name = search balance_rules depth 12

check_digest_options-Balanced :
    (c : Context) (t : String) (o : SignOptions) (n : ℕ) → Balanced (check_digest_options c t o n)
unfolding check_digest_options
check_digest_options-Balanced c t o n = search (balance_rules, digest_size-Balanced) depth 12

apply_digest_param-Balanced :
    (pctx : ℕ) (digest : String) → Balanced (apply_digest_param pctx digest)
unfolding apply_digest_param
apply_digest_param-Balanced pctx digest =
    set_pkey_params-Balanced pctx _ _ (search builds_rules depth 12)

digest_context-Balanced {ℓ} :
    {A : Type ℓ} (k : Option Key) (p : Pkey) (digest : Bytes) (o : SignOptions) (init : String)
    (body : ℕ → Go A)
    → ((pctx : ℕ) → Balanced (body pctx))
    → Balanced (digest_context k p digest o init body)
unfolding digest_context
digest_context-Balanced k p digest o init body b =
    search (parts, check_digest_options-Balanced, apply_digest_param-Balanced) depth 14

sign-Balanced :
    (k : Option Key) (msg : Bytes) (opts : Option SignOptions) → Balanced (sign k msg opts)
unfolding sign
sign-Balanced k msg opts = Balanced-when_open (pkey_of k) _ λ p. sign_with-Balanced k p msg _

verify-Balanced :
    (k : Option Key) (msg sig : Bytes) (opts : Option SignOptions)
    → Balanced (verify k msg sig opts)
unfolding verify
verify-Balanced k msg sig opts =
    Balanced-when_open (pkey_of k) _
      λ p. Balanced-if (length sig == 0) _ _ (Balanced-fail _) (verify_with-Balanced k p msg sig _)

sign_digest-Balanced :
    (k : Option Key) (digest : Bytes) (opts : Option SignOptions)
    → Balanced (sign_digest k digest opts)
unfolding sign_digest
sign_digest-Balanced k digest opts =
    Balanced-when_open (pkey_of k) _
      λ p. digest_context-Balanced k p digest (sign_opts k opts) _ _ λ pctx. search parts depth 12

verify_digest-Balanced :
    (k : Option Key) (digest sig : Bytes) (opts : Option SignOptions)
    → Balanced (verify_digest k digest sig opts)
unfolding verify_digest
verify_digest-Balanced k digest sig opts = Balanced-when_open (pkey_of k) _ λ p.
    Balanced-if (length sig == 0) _ _ (Balanced-fail _)
      (digest_context-Balanced k p digest (sign_opts k opts) _ _ λ pctx. search parts depth 12)

-- Signing and verifying, of a message or of its digest, hold, when they return, the references that
-- they held before and no other, and have released none that was not held: for every key, option and
-- answer of libcrypto, errors included.
pub one_shot-Balanced :
    (k : Option Key) (input sig : Bytes) (opts : Option SignOptions)
    → (Balanced (sign k input opts) × Balanced (verify k input sig opts))
      × (Balanced (sign_digest k input opts) × Balanced (verify_digest k input sig opts))
one_shot-Balanced k input sig opts = (
  (sign-Balanced k input opts, verify-Balanced k input sig opts),
  (sign_digest-Balanced k input opts, verify_digest-Balanced k input sig opts),
)

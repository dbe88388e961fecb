-- ===== src/Key/Made.antt =====
-- Who owns a generated key.
use ossl_go.Prelude.{arith, ℕ, ◌≡◌, refl, String, List, [], ◌∷◌, Option, none, some}
use ossl_go.Prelude.Int.{is_nonpos}
use ossl_go.Cgo.{World, Reply, ◌>>=◌, release}
use ossl_go.Cgo.Balance.{
  Balanced, Balanced-call, Balanced-call_pos, Balanced-clear_errors, Balanced-pure, balance_rules,
}
use ossl_go.Cgo.Owns.{
  Owns, Owns-fail, Owns-new_error, Owns-if, Owns-bind, Owns-with_cstring, Owns-using,
  Owns-pure_bind, Balanced-close,
}
use ossl_go.Cgo.Returns.{
  Ensures, Ensures-fail, Ensures-pure, Ensures-bind, Ensures-using, Ensures-with_cstring,
}
use ossl_go.Params.Arena.{
  Adds, Adds-pure, Builds-bind, Builds-new_params, utf8-Adds, octets-Adds, int-Adds, uint-Adds,
  size_t-Adds, Adds-then,
}
use ossl_go.Params.Freed.{Balanced-with_params, c-Balanced}
use ossl_go.Context.{Context}
use ossl_go.Key.{
  Key, KeyOption, rsa_bits, group, string_option, bytes_option, int_option, uint_option,
  other_option, Pkey, apply_option, apply_options, set_key_options, own, generate, generate_key,
  close_key,
}

apply_option-Adds : (o : KeyOption) → Adds (apply_option o)
apply_option-Adds (rsa_bits b) = size_t-Adds _ b
apply_option-Adds (group g) = utf8-Adds _ g
apply_option-Adds (string_option k v) = utf8-Adds k v
apply_option-Adds (bytes_option k v) = octets-Adds k v
apply_option-Adds (int_option k v) = int-Adds k v
apply_option-Adds (uint_option k v) = uint-Adds k v
apply_option-Adds (other_option k) = Adds-pure

apply_options-Adds : (os : List KeyOption) → Adds (apply_options os)
unfolding apply_options
apply_options-Adds [] = Adds-pure
apply_options-Adds (o ∷ os) =
    Adds-then (apply_option o) (apply_options os) (apply_option-Adds o) (apply_options-Adds os)

set_key_options-Balanced : (kctx : ℕ) (os : List KeyOption) → Balanced (set_key_options kctx os)
unfolding set_key_options
set_key_options-Balanced kctx [] = Balanced-pure tt
set_key_options-Balanced kctx (o ∷ os) =
    Balanced-with_params _ _ (Builds-bind _ _ Builds-new_params (apply_options-Adds (o ∷ os)))
      λ p. search (balance_rules, c-Balanced) depth 12

own-Owns : (r : Reply) → Owns (λ p. p.addr) (own r)
own-Owns r = record { at = λ w. record { live = λ i. refl; bad = refl } }

generate-Owns : (kctx : ℕ) (op : String) → Owns (λ p. p.addr) (generate kctx op)
unfolding generate
generate-Owns kctx op =
    Owns-bind _ _ (Balanced-call _ _)
      λ r. Owns-if (is_nonpos r.rc) _ _ (Owns-new_error op) (own-Owns r)

-- the address behind a key, if it is open
abbrev key_addr : Key → ℕ
key_addr k = elim k.pkey [ none ↦ 0 | some p ↦ p.addr ]

generate_key-Owns :
    (c : Option Context) (algorithm : String) (opts : List KeyOption)
    → Owns key_addr (generate_key c algorithm opts)
unfolding generate_key
generate_key-Owns none algorithm opts = Owns-fail _
generate_key-Owns (some c) algorithm opts = Owns-bind _ _ Balanced-clear_errors λ _.
    Owns-with_cstring algorithm _ (
      Owns-using _ _ _ _ _ λ kctx. Owns-bind _ _ (Balanced-call_pos _ _ _) λ _.
        Owns-bind _ _ (set_key_options-Balanced kctx opts)
          λ _. Owns-pure_bind (λ p. p.addr) (generate kctx _) _ (generate-Owns kctx _) λ p. refl)

-- The key is open.
abbrev Open : Key → Type 0
Open k = (p : Pkey) × (k.pkey ≡ some p)

generate_key-Open :
    (c : Option Context) (algorithm : String) (opts : List KeyOption)
    → Ensures Open (generate_key c algorithm opts)
unfolding generate_key
generate_key-Open none algorithm opts = Ensures-fail _
generate_key-Open (some c) algorithm opts = Ensures-bind _ _ λ _. Ensures-with_cstring algorithm _ (
    Ensures-using _ _ _ _ _ λ kctx.
      Ensures-bind _ _ λ _. Ensures-bind _ _ λ _. Ensures-bind _ _ λ p. Ensures-pure _ (p, refl))

closes :
    (k : Key) → Open k → (w : World) → (close_key k w).1 ≡ release "EVP_PKEY_free" (key_addr k) w
unfolding close_key
closes k (p, e) w = ground (arith, e)

-- A key that is generated and closed leaves nothing behind: every error of `generate_key` gives back
-- what it acquired, and `close_key` gives back the one reference that a key keeps.
pub generate_key-close-Balanced :
    (c : Option Context) (algorithm : String) (opts : List KeyOption)
    → Balanced (generate_key c algorithm opts >>= close_key)
generate_key-close-Balanced c algorithm opts =
    Balanced-close "EVP_PKEY_free" (generate_key c algorithm opts) close_key
      (generate_key-Owns c algorithm opts)
      λ w k h v. closes k ((generate_key-Open c algorithm opts).at w k h) v

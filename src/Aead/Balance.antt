-- ===== src/Aead/Balance.antt =====
-- Sealing and opening release their contexts and arenas, and an AEAD is released once.
use ossl_go.Prelude.{
  if◌then◌else◌, ℕ, ◌≡◌, refl, arith, Bytes, Bool, true, false, String, List, Option, none, some,
}
use ossl_go.Cgo.{World, Go, Arg, ◌>>=◌, release}
use ossl_go.Cgo.Balance.{
  Balanced, Balanced-pure, Balanced-fail, Balanced-if, Balanced-bind, Balanced-clear_errors,
  balance_rules,
}
use ossl_go.Cgo.Owns.{Owns, Owns-fail, Owns-bind, Owns-with_cstring, Owns-make, Balanced-close}
use ossl_go.Cgo.Returns.{Ensures, Ensures-fail, Ensures-pure, Ensures-bind, Ensures-with_cstring}
use ossl_go.Params.{Builder}
use ossl_go.Params.Arena.{
  Adds, builds_rules, octets-Adds, octets_nil_data-Adds, size_t-Adds, octets_out-Adds, Builds-bind,
  Builds-new_params,
}
use ossl_go.Params.Freed.{Balanced-with_params, c-Balanced}
use ossl_go.Context.{Context}
use ossl_go.Cipher.{Buffer}
use ossl_go.Cipher.Balance.{
  first_byte-Balanced, update_part-Balanced, final_part-Balanced, cut-Balanced,
  is_aead_cipher-Balanced, owning-Ensures,
}
use ossl_go.Aead.{
  Aead, AeadOption, init_aead, tag_size_param, feed, when, read_tag, seal_body, seal_err, reject,
  open_body, open_final, open_aead, make_aead, new_aead, close_aead,
}

init_aead-Balanced :
    (f : String) (ctx : ℕ) (a : Aead) (nonce : Bytes) (tag : Builder → Go Builder)
    → Adds tag
    → Balanced (init_aead f ctx a nonce tag)
unfolding init_aead
init_aead-Balanced f ctx a nonce tag t =
    Balanced-with_params _ _ (search builds_rules depth 12)
      λ p. search (balance_rules, c-Balanced, first_byte-Balanced) depth 14

branch-Adds :
    (b : Bool) (f g : Builder → Go Builder) → Adds f → Adds g → Adds (λ p. if b then f p else g p)
branch-Adds true f g p q = p
branch-Adds false f g p q = q

tag_size_param-Adds : (a : Aead) → Adds (tag_size_param a)
tag_size_param-Adds a =
    branch-Adds a.ccm _ _ (octets_nil_data-Adds "tag" a.tag) (size_t-Adds "taglen" a.tag)

feed-Balanced :
    (f : String) (ctx : ℕ) (input : Arg) (n : ℕ) (otherwise : Go (Unit {0}))
    → Balanced otherwise
    → Balanced (feed f ctx input n otherwise)
feed-Balanced f ctx input n otherwise b = search balance_rules depth 12

when-Balanced : (b : Bool) (m : Go (Unit {0})) → Balanced m → Balanced (when b m)
when-Balanced b m p = Balanced-if b _ _ p (Balanced-pure tt)

reject-Balanced {ℓ} : {A : Type ℓ} → Balanced (reject {A = A})
reject-Balanced = Balanced-bind _ _ Balanced-clear_errors λ u. Balanced-fail _

read_tag-Balanced : (ctx : ℕ) (a : Aead) → Balanced (read_tag ctx a)
read_tag-Balanced ctx a =
    Balanced-with_params _ _ (Builds-bind _ _ Builds-new_params (octets_out-Adds "tag" a.tag))
      λ p. search (balance_rules, c-Balanced) depth 12

seal_body-Balanced : (a : Aead) (ctx : ℕ) (plaintext : Bytes) → Balanced (seal_body a ctx plaintext)
unfolding seal_body
seal_body-Balanced a ctx plaintext = search (balance_rules, update_part-Balanced) depth 14

open_body-Balanced : (a : Aead) (ctx : ℕ) (body : Bytes) → Balanced (open_body a ctx body)
unfolding open_body
open_body-Balanced a ctx body = search balance_rules depth 16

open_final-Balanced : (ctx : ℕ) (b : Buffer) → Balanced (open_final ctx b)
unfolding open_final
open_final-Balanced ctx (total, buf) = search (balance_rules, cut-Balanced) depth 14

seal_err-Balanced :
    (a : Option Aead) (dst nonce plaintext aad : Bytes)
    → Balanced (seal_err a dst nonce plaintext aad)
unfolding seal_err
seal_err-Balanced none dst nonce plaintext aad = Balanced-fail _
seal_err-Balanced (some a) dst nonce plaintext aad =
    search
      (
        balance_rules, init_aead-Balanced, tag_size_param-Adds, seal_body-Balanced,
        final_part-Balanced, read_tag-Balanced,
      )
      depth 20

open_aead-Balanced :
    (a : Option Aead) (dst nonce ciphertext aad : Bytes)
    → Balanced (open_aead a dst nonce ciphertext aad)
unfolding open_aead
open_aead-Balanced none dst nonce ciphertext aad = Balanced-fail _
open_aead-Balanced (some a) dst nonce ciphertext aad =
    search (balance_rules, init_aead-Balanced, octets-Adds, open_body-Balanced, open_final-Balanced)
      depth 20

-- Sealing and opening hold, when they return, the references that they held before and no other, and
-- release none that was not held, on every path.
pub seal_err-open_aead-Balanced :
    (a : Option Aead) (dst nonce input aad : Bytes)
    → Balanced (seal_err a dst nonce input aad) × Balanced (open_aead a dst nonce input aad)
seal_err-open_aead-Balanced a dst nonce input aad =
    (seal_err-Balanced a dst nonce input aad, open_aead-Balanced a dst nonce input aad)

make_aead-Balanced :
    (ci : ℕ) (name : String) (key : Bytes) (opts : List AeadOption)
    → Balanced (make_aead ci name key opts)
unfolding make_aead
make_aead-Balanced ci name key opts = search (balance_rules, is_aead_cipher-Balanced) depth 20

-- An open AEAD over the EVP_CIPHER at `ci`.
abbrev Made : ℕ → Aead → Type 0
Made ci a = (a.cipher ≡ ci) × (a.is_closed ≡ false)

make_aead-Made :
    (ci : ℕ) (name : String) (key : Bytes) (opts : List AeadOption)
    → Ensures (Made ci) (make_aead ci name key opts)
unfolding make_aead
make_aead-Made ci name key opts = Ensures-bind _ _ λ _. Ensures-bind _ _ λ _. Ensures-bind _ _ λ _.
    Ensures-bind _ _ λ _.
      Ensures-bind _ _ λ _. Ensures-bind _ _ λ _. Ensures-bind _ _ λ _. Ensures-pure _ (refl, refl)

new_aead-Owns :
    (c : Option Context) (name : String) (key : Bytes) (opts : List AeadOption)
    → Owns (λ a. a.cipher) (new_aead c name key opts)
unfolding new_aead
new_aead-Owns none name key opts = Owns-fail _
new_aead-Owns (some c) name key opts = Owns-bind _ _ Balanced-clear_errors λ _.
    Owns-with_cstring name _ (
      Owns-make _ _ _ "EVP_CIPHER_free" _ (λ ci. make_aead-Balanced ci name key opts)
        λ ci. record { at = λ w a h. ((make_aead-Made ci name key opts).at w a h).0 })

new_aead-open :
    (c : Option Context) (name : String) (key : Bytes) (opts : List AeadOption)
    → Ensures (λ a. a.is_closed ≡ false) (new_aead c name key opts)
unfolding new_aead
new_aead-open none name key opts = Ensures-fail _
new_aead-open (some c) name key opts = Ensures-bind _ _ λ _. Ensures-with_cstring name _ (
    Ensures-bind _ _ λ ci.
      owning-Ensures _ ci _
        (record { at = λ w a h. ((make_aead-Made ci name key opts).at w a h).1 }))

closes :
    (a : Aead)
    → a.is_closed ≡ false
    → (w : World) → (close_aead a w).1 ≡ release "EVP_CIPHER_free" a.cipher w
unfolding close_aead
closes a h w = ground (arith, h)

-- An AEAD that is made and closed leaves nothing behind: every error of `new_aead` gives the
-- EVP_CIPHER back, and `close_aead` gives back the one that the AEAD keeps.
new_aead-close-Balanced :
    (c : Option Context) (name : String) (key : Bytes) (opts : List AeadOption)
    → Balanced (new_aead c name key opts >>= close_aead)
new_aead-close-Balanced c name key opts =
    Balanced-close "EVP_CIPHER_free" (new_aead c name key opts) close_aead
      (new_aead-Owns c name key opts)
      λ w a h v. closes a ((new_aead-open c name key opts).at w a h) v

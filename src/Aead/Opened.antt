-- ===== src/Aead/Opened.antt =====
-- What libcrypto answered when `Open` returns a plaintext.
use ossl_go.Prelude.{ℕ, ◌++◌, ◌≡◌, ap, ◌∙◌, Bytes, leb, String, List, [], ◌∷◌, some, length}
use ossl_go.Prelude.Int.{pos, ltb_ℤ}
use ossl_go.Errors.{ok}
use ossl_go.Cgo.{World, Go, Arg, ptr, Reply, pure, ◌>>=◌, ◌>>◌, octet_string, size_value, end_mark}
use ossl_go.Cgo.Trace.{
  Extends, Extends-pure, Extends-refuse_if, Extends-clear_errors, extends_rules,
}
use ossl_go.Cgo.Confirms.{
  Confirms, Confirms-fail, Confirms-abort, Confirms-if, Confirms-bind, Confirms-bind_of,
  Confirms-bind_left, Confirms-call_one, Confirms-checked, Confirms-weaken,
}
use ossl_go.Cgo.Ordered.{
  Demand, AskedInOrder, Ordered, Ordered-last, Ordered-fail, Ordered-if, Ordered-bind,
  Ordered-using, Ordered-choose, Ordered-then,
}
use ossl_go.Params.{octets, Builder, wrap}
use ossl_go.Params.Calls.{
  params_extend, c-Extends, Confirms-with_params, Extends-with_params, octets-Extends,
}
use ossl_go.Params.Entries.{
  Entry, args_entries, Holds-bind, c_held, new_params-Holds, size_t-Appends, octets-Appends,
}
use ossl_go.Cipher.{Buffer, cut, first_byte}
use ossl_go.Aead.{Aead, init_aead, open_body, open_final, open_aead, sealed_tag}

first_byte-Extends : (b : Bytes) → Extends (first_byte b)
first_byte-Extends [] = search extends_rules
first_byte-Extends (b ∷ bs) = Extends-pure tt

init_aead-Extends :
    (f : String) (ctx : ℕ) (a : Aead) (nonce : Bytes) (tag : Builder → Go Builder)
    → ((p : Builder) → Extends (tag p))
    → Extends (init_aead f ctx a nonce tag)
unfolding init_aead
init_aead-Extends f ctx a nonce tag t =
    search (extends_rules, params_extend, Extends-with_params, first_byte-Extends) depth 16

open_body-Extends : (a : Aead) (ctx : ℕ) (body : Bytes) → Extends (open_body a ctx body)
unfolding open_body
open_body-Extends a ctx body = search extends_rules depth 16

cut-Extends : (n : ℕ) (buf : Bytes) → Extends (cut n buf)
cut-Extends n buf = search extends_rules

ruleset opening = (extends_rules, init_aead-Extends, octets-Extends, open_body-Extends)

-- The final call of a decryption, which checks the tag, was answered 1.
abbrev pub Authenticated : ℕ → List Arg → Reply → Type 0
Authenticated ctx args r = (args ≡ ptr ctx ∷ []) × (r.rc ≡ pos 1)

open_final-Confirms :
    (ctx : ℕ) (b : Buffer) → Confirms "EVP_DecryptFinal_ex" (Authenticated ctx) (open_final ctx b)
unfolding open_final
open_final-Confirms ctx (total, buf) = Confirms-if (leb (length buf) total) _ _ (Confirms-abort _) (
    Confirms-checked "EVP_DecryptFinal_ex" (ptr ctx ∷ []) _ _ (λ r. cut-Extends _ _)
      (Confirms-bind _ _ Extends-clear_errors λ u. Confirms-fail _))

open_final-Extends : (ctx : ℕ) (b : Buffer) → Extends (open_final ctx b)
unfolding open_final
open_final-Extends ctx (total, buf) = search (extends_rules, cut-Extends) depth 14

-- The parameters of a decryption: the size of the nonce, and the tag to check.
abbrev pub tag_entries : Aead → Bytes → List Entry
tag_entries a tag =
    ("ivlen", size_value (wrap 64 a.nonce)) ∷ ("tag", octet_string tag) ∷ ("", end_mark) ∷ []

-- The context was given the tag, and accepted it.
abbrev pub GivenTag : Aead → Bytes → ℕ → List Arg → Reply → Type 0
GivenTag a tag ctx args r =
    ((rest : List Arg) × (args ≡ ptr ctx ∷ rest))
    × (args_entries args ≡ tag_entries a tag)
    × (r.rc ≡ pos 1)

-- The context is given the tag, and then it confirms the tag.
abbrev pub authentication : Aead → Bytes → ℕ → List Demand
authentication a tag ctx =
    record { fn = "EVP_DecryptInit_ex2"; holds = GivenTag a tag ctx }
    ∷ record { fn = "EVP_DecryptFinal_ex"; holds = Authenticated ctx }
    ∷ []

init_aead-Confirms :
    (ctx : ℕ) (a : Aead) (nonce tag : Bytes)
    → Confirms "EVP_DecryptInit_ex2"
        (GivenTag a tag ctx)
        (init_aead "EVP_DecryptInit_ex2" ctx a nonce (octets "tag" tag))
unfolding init_aead
init_aead-Confirms ctx a nonce tag =
    Confirms-with_params _ _ (search (extends_rules, params_extend) depth 12) λ w p b.
      Confirms-bind_of _ _ (c-Extends p) λ w' p' c.
        let held =
          (c_held _ p (
              (Holds-bind _ _ _ _
                  (Holds-bind _ _ _ _ new_params-Holds (size_t-Appends "ivlen" a.nonce))
                  (octets-Appends "tag" tag)).at
                w p b)).at
            w' p' c in
        Confirms-if a.ccm _ _
          (Confirms-bind_left _ _
            (Confirms-weaken _ (λ args r q. ((_, q.0), ap args_entries q.0 ∙ held, q.1))
              (Confirms-call_one _ _ _))
            λ r. search (extends_rules, first_byte-Extends) depth 12)
          (Confirms-bind _ _ (first_byte-Extends a.key) λ u.
            Confirms-bind _ _ (first_byte-Extends nonce) λ v.
              Confirms-bind_left _ _
                (Confirms-weaken _ (λ args r q. ((_, q.0), ap args_entries q.0 ∙ held, q.1))
                  (Confirms-call_one _ _ _))
                λ r. Extends-pure tt)

-- What follows the start of a decryption confirms the tag.
finished :
    (a : Aead) (ctx : ℕ) (m n : Go (Unit {0})) (body dst : Bytes)
    → Extends m
    → Extends n
    → Confirms "EVP_DecryptFinal_ex" (Authenticated ctx) (
        m
        >> (n >> (open_body a ctx body >>= λ buf. open_final ctx buf >>= λ out. pure (dst ++ out))))
finished a ctx m n body dst em en = Confirms-bind _ _ em λ _. Confirms-bind _ _ en λ _.
    Confirms-bind _ _ (open_body-Extends a ctx _)
      λ buf. Confirms-bind_left _ _ (open_final-Confirms ctx buf) λ out. Extends-pure _

open_aead-Ordered :
    (a : Aead) (dst nonce ciphertext aad : Bytes)
    → Ordered
        (authentication a (sealed_tag a ciphertext))
        (open_aead (some a) dst nonce ciphertext aad)
unfolding open_aead
open_aead-Ordered a dst nonce ciphertext aad = Ordered-if a.is_closed _ _ (Ordered-fail _) (
    Ordered-bind _ _ (Extends-refuse_if _ _) λ _.
      Ordered-if (ltb_ℤ (pos (length ciphertext)) a.tag) _ _ (Ordered-fail _) (
        Ordered-bind _ _ Extends-clear_errors λ _. Ordered-using _ _ _ _ _ λ ctx.
          Ordered-choose (λ (_ : Unit {0}). ctx) _
            (Ordered-then _ _ _ _ (init_aead-Extends _ ctx a nonce _ (octets-Extends "tag" _))
              (init_aead-Confirms ctx a nonce _)
              λ _. Ordered-last _ (search (opening, open_final-Extends) depth 16) (
                finished a ctx _ _ _ dst (search extends_rules depth 12)
                  (search extends_rules depth 12)))))

-- `open_aead` returns a plaintext only after one decryption context was given the last bytes of the
-- ciphertext as the tag, and then the final call on the same context, which checks the tag, answered 1.
pub open_aead_authenticated :
    (a : Aead) (dst nonce ciphertext aad out : Bytes) (w : World)
    → (open_aead (some a) dst nonce ciphertext aad w).0 ≡ ok out
    → (ctx : ℕ) × AskedInOrder w.lib
        (authentication a (sealed_tag a ciphertext) ctx)
        w.trace
        (open_aead (some a) dst nonce ciphertext aad w).1.trace
open_aead_authenticated a dst nonce ciphertext aad out w h =
    (open_aead-Ordered a dst nonce ciphertext aad).at w out h

-- ===== src/Sign/Output.antt =====
-- The width of a signature in the P1363 form.
use ossl_go.Prelude.{ℕ, ◌*◌, ◌≡◌, ap, Bytes, Option, none, some, length, String, str_eq}
use ossl_go.Errors.{ok}
use ossl_go.Cgo.{World, Go, Arg, lift}
use ossl_go.Cgo.Returns.{
  Ensures, Ensures-fail, Ensures-bind, Ensures-using, Ensures-with_cstring, Ensures-if,
}
use ossl_go.Ecdsa.Width.{length-der_to_p1363}
use ossl_go.Key.{Key, Pkey, pkey_of, when_open}
use ossl_go.SignOptions.{SignOptions, p1363, is_p1363, sign_opts}
use ossl_go.Sign.{
  coordinate_len, in_format, with_digest_name, digest_context, sign_with, sign, sign_digest,
}
use ossl_go.Sign.Accepts.{lifted}

module _ {ℓ} {A : Type ℓ} {Q : A → Type 0} where
  Ensures-when_open :
      (k : Option Pkey) (body : Pkey → Go A)
      → ((p : Pkey) → Ensures Q (body p))
      → Ensures Q (when_open k body)
  Ensures-when_open none body b = Ensures-fail _
  Ensures-when_open (some p) body b = b p

  with_digest_name-Ensures :
      (digest : String) (body : Arg → Go A)
      → ((cd : Arg) → Ensures Q (body cd))
      → Ensures Q (with_digest_name digest body)
  unfolding with_digest_name
  with_digest_name-Ensures digest body k =
      Ensures-if (str_eq digest "") _ _ (k _) (Ensures-with_cstring digest _ (k _))

  digest_context-Ensures :
      (k : Option Key) (p : Pkey) (digest : Bytes) (o : SignOptions) (init : String)
      (body : ℕ → Go A)
      → ((pctx : ℕ) → Ensures Q (body pctx))
      → Ensures Q (digest_context k p digest o init body)
  unfolding digest_context
  digest_context-Ensures k p digest o init body b = Ensures-bind _ _ λ _. Ensures-bind _ _ λ _.
      Ensures-using _ _ _ _ _
        λ pctx. Ensures-bind _ _ λ _. Ensures-bind _ _ λ _. Ensures-bind _ _ λ _. b pctx

-- `out` is as wide as two coordinates of the key, if the options ask for P1363.
abbrev pub WidthOf : Option Key → SignOptions → Bytes → Type 0
WidthOf k o out = o.format ≡ p1363 → length out ≡ 2 * coordinate_len k

in_format-Width :
    (k : Option Key) (o : SignOptions) (out : Bytes)
    → Ensures (WidthOf k o) (lift (in_format k o out))
in_format-Width k o out = record {
  at = λ w sig h e. length-der_to_p1363 out (coordinate_len k) sig (cc (lifted w h, ap is_p1363 e));
}

sign_with-Width :
    (k : Option Key) (p : Pkey) (msg : Bytes) (o : SignOptions)
    → Ensures (WidthOf k o) (sign_with k p msg o)
unfolding sign_with
sign_with-Width k p msg o = Ensures-bind _ _ λ _. Ensures-bind _ _ λ _.
    Ensures-using _ _ _ _ _ λ mdctx. with_digest_name-Ensures o.digest _ λ cd.
      Ensures-bind _ _ λ init. Ensures-bind _ _ λ _. Ensures-bind _ _ λ out. in_format-Width k o out

-- A signature that `sign` returns in the P1363 form is exactly twice as wide as the order of the
-- key's curve, in bytes, however short the two numbers in it are.
pub sign_p1363_width :
    (k : Option Key) (msg : Bytes) (opts : Option SignOptions) (sig : Bytes) (w : World)
    → (sign_opts k opts).format ≡ p1363
    → (sign k msg opts w).0 ≡ ok sig
    → length sig ≡ 2 * coordinate_len k
unfolding sign
sign_p1363_width k msg opts sig w e h =
    (Ensures-when_open (pkey_of k) _ λ p. sign_with-Width k p msg (sign_opts k opts)).at w sig h e

sign_digest_p1363_width :
    (k : Option Key) (msg : Bytes) (opts : Option SignOptions) (sig : Bytes) (w : World)
    → (sign_opts k opts).format ≡ p1363
    → (sign_digest k msg opts w).0 ≡ ok sig
    → length sig ≡ 2 * coordinate_len k
unfolding sign_digest
sign_digest_p1363_width k msg opts sig w e h =
    let o = sign_opts k opts in
    (Ensures-when_open (pkey_of k) _ λ p.
        digest_context-Ensures k p msg o _ _
          λ pctx. Ensures-bind _ _ λ out. in_format-Width k o out).at
      w sig h e

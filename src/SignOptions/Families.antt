-- ===== src/SignOptions/Families.antt =====
-- Which options `checkSignOptions` accepts, as a table by the family of the key's algorithm.
use ossl_go.Prelude.{
  ◌≤◌, ◌≡◌, ◌↔◌, refl, Bool, true, false, String, str_eq, none, arith, eq_iff, if◌then◌else◌, subst,
  sym,
}
use ossl_go.Prelude.Int.{ℤ, pos, negsuc}
use ossl_go.Errors.{ok}
use ossl_go.Names.{has_prefix}
use ossl_go.SignOptions.{
  pss, der, is_pkcs1v15, SignOptions, is_pqc, context_length, check_sign_options,
}

pub data Family : Type 0 where
  rsa rsa_pss ec ed25519 ed448 pqc other : Family

abbrev pub family : String → Family
family t =
    if str_eq t "RSA"
    then rsa
    else if str_eq t "RSA-PSS"
    then rsa_pss
    else if str_eq t "EC"
    then ec
    else if str_eq t "ED25519"
    then ed25519
    else if str_eq t "ED448"
    then ed448
    else if is_pqc t
    then pqc
    else other

-- A number of bytes, the length of the digest (0), or the maximum (-1).
abbrev pub KnownSalt : ℤ → Type 0
KnownSalt (pos n) = Unit
KnownSalt (negsuc n) = n ≡ 0

abbrev pub NoRsaOptions : SignOptions → Type 0
NoRsaOptions o = (o.padding ≡ pss) × (o.pss_salt_len ≡ pos 0) × (o.mgf1_hash ≡ "")

-- What a family asks of each field but the digest; a field that it does not name may have any value.
abbrev pub Allowed : Family → SignOptions → Type 0
Allowed rsa o =
    (o.context ≡ none)
    × (o.prehash ≡ false)
    × (o.deterministic ≡ false)
    × (o.format ≡ der)
    × KnownSalt o.pss_salt_len
Allowed rsa_pss o =
    (o.context ≡ none)
    × (o.prehash ≡ false)
    × (o.deterministic ≡ false)
    × (o.format ≡ der)
    × KnownSalt o.pss_salt_len
    × (is_pkcs1v15 o.padding ≡ false)
Allowed ec o = (o.context ≡ none) × (o.prehash ≡ false) × NoRsaOptions o
Allowed ed25519 o =
    (context_length o.context ≤ 255) × (o.deterministic ≡ false) × (o.format ≡ der) × NoRsaOptions o
Allowed ed448 o =
    (context_length o.context ≤ 255) × (o.deterministic ≡ false) × (o.format ≡ der) × NoRsaOptions o
Allowed pqc o =
    (context_length o.context ≤ 255) × (o.prehash ≡ false) × (o.format ≡ der) × NoRsaOptions o
Allowed other o =
    (o.context ≡ none)
    × (o.prehash ≡ false)
    × (o.deterministic ≡ false)
    × (o.format ≡ der)
    × NoRsaOptions o

module _ (o : SignOptions) where
  rsa_exact : check_sign_options "RSA" o ≡ ok tt ↔ Allowed rsa o
  unfolding check_sign_options has_prefix
  rsa_exact = ground (arith, eq_iff o.mgf1_hash "")

  rsa_pss_exact : check_sign_options "RSA-PSS" o ≡ ok tt ↔ Allowed rsa_pss o
  unfolding check_sign_options has_prefix
  rsa_pss_exact = ground (arith, eq_iff o.mgf1_hash "")

  ec_exact : check_sign_options "EC" o ≡ ok tt ↔ Allowed ec o
  unfolding check_sign_options has_prefix
  ec_exact = ground (arith, eq_iff o.mgf1_hash "")

  ed25519_exact : check_sign_options "ED25519" o ≡ ok tt ↔ Allowed ed25519 o
  unfolding check_sign_options has_prefix
  ed25519_exact = ground (arith, eq_iff o.mgf1_hash "")

  ed448_exact : check_sign_options "ED448" o ≡ ok tt ↔ Allowed ed448 o
  unfolding check_sign_options has_prefix
  ed448_exact = ground (arith, eq_iff o.mgf1_hash "")

  -- a key of none of the classical algorithms
  module _ (t : String) (r : str_eq t "RSA" ≡ false) (p : str_eq t "RSA-PSS" ≡ false)
      (e : str_eq t "EC" ≡ false) (d : str_eq t "ED25519" ≡ false)
      (f : str_eq t "ED448" ≡ false) where
    pqc_exact : is_pqc t ≡ true → check_sign_options t o ≡ ok tt ↔ Allowed pqc o
    unfolding check_sign_options
    pqc_exact q = ground (arith, eq_iff o.mgf1_hash "")

    other_exact : is_pqc t ≡ false → check_sign_options t o ≡ ok tt ↔ Allowed other o
    unfolding check_sign_options
    other_exact q = ground (arith, eq_iff o.mgf1_hash "")

  -- The check of a key of algorithm `t` accepts just what the family allows.
  abbrev Exact : String → Family → Type 0
  Exact t f = check_sign_options t o ≡ ok tt ↔ Allowed f o

  named : (t s : String) (f : Family) → Exact s f → str_eq t s ≡ true → Exact t f
  named t s f k h = subst (λ u. Exact u f) (sym ((eq_iff t s).0 h)) k

  either :
      (t : String) (b : Bool) (f g : Family)
      → (b ≡ true → Exact t f)
      → (b ≡ false → Exact t g)
      → Exact t (if b then f else g)
  either t true f g y n = y refl
  either t false f g y n = n refl

-- For a key of algorithm `t`, `check_sign_options` accepts exactly the option sets that the table
-- `Allowed` gives the family of `t`: a field that the family does not have is at its zero value, a
-- context has at most 255 bytes, a salt length is a number of bytes, 0 or -1, and the padding of an
-- RSA-PSS key is not PKCS#1 v1.5. The digest is not looked at, and with PKCS#1 v1.5 a salt length and
-- an MGF1 hash are accepted.
pub check_sign_options_exact :
    (t : String) (o : SignOptions) → check_sign_options t o ≡ ok tt ↔ Allowed (family t) o
check_sign_options_exact t o =
    either o t (str_eq t "RSA") rsa _ (named o t "RSA" rsa (rsa_exact o)) λ r.
      either o t (str_eq t "RSA-PSS") rsa_pss _ (named o t "RSA-PSS" rsa_pss (rsa_pss_exact o)) λ p.
        either o t (str_eq t "EC") ec _ (named o t "EC" ec (ec_exact o)) λ e.
          either o t (str_eq t "ED25519") ed25519 _ (named o t "ED25519" ed25519 (ed25519_exact o))
            λ d.
              either o t (str_eq t "ED448") ed448 _ (named o t "ED448" ed448 (ed448_exact o)) λ f.
                either o t (is_pqc t) pqc other (pqc_exact o t r p e d f)
                  (other_exact o t r p e d f)

-- ===== src/SignOptions/Check.antt =====
-- What an option set that `checkSignOptions` accepts asks of the key's algorithm.
use ossl_go.Prelude.{
  List, [], ◌∷◌, ℕ, ◌≤◌, ◌≡◌, ◌≢◌, refl, Bool, true, false, not, ◌&&◌, ◌||◌, String, Option, none,
  arith, str_eq, eq_iff,
}
use ossl_go.Prelude.Int.{ℤ, pos, negsuc, eq_ℕ}
use ossl_go.Errors.{ok, Refusal}
use ossl_go.SignOptions.{
  RsaPadding, pss, pkcs1v15, SignatureFormat, der, is_pss, is_pkcs1v15, is_der, SignOptions, is_rsa,
  is_pqc, is_set, context_length, max_context_length, is_negative, is_salt_max, first_refusal,
  guards, check_sign_options,
}

abbrev pub takes_context : String → Bool
takes_context t = str_eq t "ED25519" || (str_eq t "ED448" || is_pqc t)

abbrev pub has_prehash : String → Bool
has_prehash t = str_eq t "ED25519" || str_eq t "ED448"

abbrev pub has_deterministic : String → Bool
has_deterministic t = str_eq t "EC" || is_pqc t

-- What each option that is not at its zero value asks of the key's algorithm `t`.
pub record Honoured (t : String) (o : SignOptions) : Type 0 where
  pub context : o.context ≢ none → takes_context t ≡ true
  pub context_fits : context_length o.context ≤ max_context_length
  pub prehash : o.prehash ≡ true → has_prehash t ≡ true
  pub padding : o.padding ≢ pss → is_rsa t ≡ true
  pub salt : o.pss_salt_len ≢ pos 0 → is_rsa t ≡ true
  pub salt_known : (n : ℕ) → o.pss_salt_len ≡ negsuc n → n ≡ 0
  pub deterministic : o.deterministic ≡ true → has_deterministic t ≡ true
  pub mgf1 : o.mgf1_hash ≢ "" → is_rsa t ≡ true
  pub format : o.format ≢ der → t ≡ "EC"
  pub pss_key : t ≡ "RSA-PSS" → o.padding ≢ pkcs1v15

-- No condition of the chain holds.
abbrev AllFalse : List (Bool × Refusal) → Type 0
AllFalse [] = Unit
AllFalse ((b, r) ∷ rest) = (b ≡ false) × AllFalse rest

all_false : (gs : List (Bool × Refusal)) → first_refusal gs ≡ ok tt → AllFalse gs
all_false [] h = tt
all_false ((true, r) ∷ rest) h = absurd (cc h)
all_false ((false, r) ∷ rest) h = (refl, all_false rest h)

context_guard : (c : Option (List ℕ)) (b : Bool) → (is_set c && not b) ≡ false → c ≢ none → b ≡ true
context_guard c b h k = ground arith

padding_guard : (p : RsaPadding) (b : Bool) → (not (is_pss p) && not b) ≡ false → p ≢ pss → b ≡ true
padding_guard p b h k = ground arith

salt_guard : (n : ℤ) (b : Bool) → (not (eq_ℕ n 0) && not b) ≡ false → n ≢ pos 0 → b ≡ true
salt_guard n b h k = ground arith

mgf1_guard : (m : String) (b : Bool) → (not (str_eq m "") && not b) ≡ false → m ≢ "" → b ≡ true
mgf1_guard m b h k = ground (arith, eq_iff m "")

format_guard :
    (f : SignatureFormat) (t : String)
    → (not (is_der f) && not (str_eq t "EC")) ≡ false
    → f ≢ der
    → t ≡ "EC"
format_guard f t h k = ground (arith, eq_iff t "EC")

salt_known_guard :
    (z : ℤ) → (is_negative z && not (is_salt_max z)) ≡ false → (n : ℕ) → z ≡ negsuc n → n ≡ 0
salt_known_guard z h n e = ground arith

flag_guard : (f b : Bool) → (f && not b) ≡ false → f ≡ true → b ≡ true
flag_guard f b h k = ground arith

pss_key_guard :
    (t : String) (p : RsaPadding)
    → (str_eq t "RSA-PSS" && is_pkcs1v15 p) ≡ false
    → t ≡ "RSA-PSS"
    → p ≢ pkcs1v15
pss_key_guard t p h k = ground (arith, eq_iff t "RSA-PSS")

pub check_sound : (t : String) (o : SignOptions) → check_sign_options t o ≡ ok tt → Honoured t o
unfolding check_sign_options
check_sound t o h =
    let (context, h0) = all_false (guards t o) h in
    let (fits, h1) = h0 in
    let (prehash, h2) = h1 in
    let (padding, h3) = h2 in
    let (salt, h4) = h3 in
    let (known, h5) = h4 in
    let (deterministic, h6) = h5 in
    let (mgf1, h7) = h6 in
    let (format, h8) = h7 in
    let (key, h9) = h8 in
    record {
      context = context_guard o.context (takes_context t) context;
      context_fits = ground arith;
      prehash = flag_guard o.prehash (has_prehash t) prehash;
      padding = padding_guard o.padding (is_rsa t) padding;
      salt = salt_guard o.pss_salt_len (is_rsa t) salt;
      salt_known = salt_known_guard o.pss_salt_len known;
      deterministic = flag_guard o.deterministic (has_deterministic t) deterministic;
      mgf1 = mgf1_guard o.mgf1_hash (is_rsa t) mgf1;
      format = format_guard o.format t format;
      pss_key = pss_key_guard t o.padding key;
    }

-- ===== src/Ecdsa/Fields.antt =====
-- The pieces of the DER encoding, read back: lengths, elements and integers.
use ossl_go.Prelude.{
  ℕ, zero, suc, ◌+◌, ◌-◌, ◌/◌, ◌%◌, ◌≤◌, ◌<◌, ◌≡◌, ◌≢◌, ◌∙◌, refl, ap, Bytes, [], ◌∷◌, ◌++◌, ltb,
  ◌==◌, length, if◌then◌else◌, replicate, arith, Bool-cases, inl, inr, length-append, take-append,
  drop-append,
}
use ossl_go.Errors.{ok, ◌>>=◌}
use ossl_go.Ecdsa.{
  nonneg, strip, integer_contents, length_bytes, encode_length, encode_field, decode_long,
  decode_length, cut, decode_field, decode_integer, fixed_width,
}

abbrev pub NoLeadingZero : Bytes → Type 0
NoLeadingZero [] = Unit
NoLeadingZero (b ∷ bs) = b ≢ 0

pub strip-NoLeadingZero : (bs : Bytes) → NoLeadingZero (strip bs)
unfolding strip
strip-NoLeadingZero [] = tt
strip-NoLeadingZero (zero ∷ bs) = strip-NoLeadingZero bs
strip-NoLeadingZero (suc b ∷ bs) = λ e. absurd (omega (arith, e))

pub strip-minimal : (bs : Bytes) → NoLeadingZero bs → strip bs ≡ bs
unfolding strip
strip-minimal [] h = refl
strip-minimal (zero ∷ bs) h = absurd (h refl)
strip-minimal (suc b ∷ bs) h = refl

pub length-strip : (bs : Bytes) → length (strip bs) ≤ length bs
unfolding strip
length-strip [] = omega arith
length-strip (zero ∷ bs) = omega (arith, length-strip bs)
length-strip (suc b ∷ bs) = omega arith

pub refill : (bs : Bytes) → fixed_width (length bs) (strip bs) ≡ bs
unfolding strip fixed_width
refill [] = refl
refill (zero ∷ bs) =
    let e : suc (length bs) - length (strip bs) ≡ suc (length bs - length (strip bs)) =
      omega (arith, length-strip bs) in
    ap (λ (n : ℕ). replicate n 0 ++ strip bs) e ∙ ap (λ zs. 0 ∷ zs) (refill bs)
refill (suc b ∷ bs) =
    let e : suc (length bs) - suc (length bs) ≡ 0 = omega arith in
    ap (λ (n : ℕ). replicate n 0 ++ suc b ∷ bs) e

pub length-integer_contents : (bs : Bytes) → length (integer_contents bs) ≤ suc (length bs)
unfolding integer_contents
length-integer_contents [] = omega arith
length-integer_contents (b ∷ bs) = ground arith

pub decode_integer-contents :
    (bs : Bytes) → NoLeadingZero bs → decode_integer (integer_contents bs) ≡ ok (nonneg bs)
unfolding decode_integer integer_contents strip
decode_integer-contents [] h = refl
decode_integer-contents (b ∷ []) h = ground arith
decode_integer-contents (b ∷ b' ∷ bs) h = ground arith

one_octet : (n : ℕ) → 0x80 ≤ n → n < 256 → length_bytes 8 n ≡ n ∷ []
unfolding length_bytes
one_octet n h k =
    let q : n / 256 ≡ 0 = omega arith in let r : n % 256 ≡ n = omega arith in ground (arith, q, r)

pub decode-encode_length :
    (n : ℕ) (rest : Bytes) → n < 256 → decode_length (encode_length n ++ rest) ≡ ok (n, rest)
unfolding decode_length encode_length decode_long
decode-encode_length n rest h = elim (Bool-cases (ltb n 0x80)) [
  | inl e ↦ ground arith
  | inr e ↦ (let o = one_octet n (ground arith) h in ground (arith, o))
]

pub length-encode_length : (n : ℕ) → n < 256 → length (encode_length n) ≤ 2
unfolding encode_length
length-encode_length n h = elim (Bool-cases (ltb n 0x80)) [
  | inl e ↦ ground arith
  | inr e ↦ (let o = one_octet n (ground arith) h in ground (arith, o))
]

cut_append : (xs ys : Bytes) → cut (length xs, xs ++ ys) ≡ ok (xs, ys)
unfolding cut
cut_append xs ys = ground (arith, length-append xs ys, take-append xs ys, drop-append xs ys)

pub append_assoc : (xs ys zs : Bytes) → (xs ++ ys) ++ zs ≡ xs ++ (ys ++ zs)
append_assoc [] ys zs = refl
append_assoc (x ∷ xs) ys zs = ap (λ ts. x ∷ ts) (append_assoc xs ys zs)

if_same {ℓ} : {A : Type ℓ} (n : ℕ) (x y : A) → (if n == n then x else y) ≡ x
if_same n x y = ground arith

pub decode-encode_field :
    (tag : ℕ) (contents rest : Bytes)
    → length contents < 256
    → decode_field tag (encode_field tag contents ++ rest) ≡ ok (contents, rest)
unfolding decode_field encode_field
decode-encode_field tag contents rest h =
    if_same tag _ _
    ∙ ap (λ bs. decode_length bs >>= cut)
        (append_assoc (encode_length (length contents)) contents rest)
    ∙ ap (λ r. r >>= cut) (decode-encode_length (length contents) (contents ++ rest) h)
    ∙ cut_append contents rest

pub length-encode_field :
    (tag : ℕ) (contents : Bytes)
    → length contents < 256
    → length (encode_field tag contents) ≤ 3 + length contents
unfolding encode_field
length-encode_field tag contents h = omega (
  arith,
  length-append (encode_length (length contents)) contents,
  length-encode_length (length contents) h,
)

-- ===== src/Ecdsa/RoundTrip.antt =====
-- `derToP1363` reads what `p1363ToDER` writes.
use ossl_go.Prelude.{
  ℕ, ◌*◌, ◌≤◌, ◌<◌, ◌≡◌, ◌∙◌, refl, sym, ap, subst, Bytes, Bool, true, false, [], ◌∷◌, ◌++◌, not,
  ◌==◌, length, take, drop, arith, length-take, length-drop, take-append-drop, if◌then◌else◌,
  length-append,
}
use ossl_go.Errors.{ok, ◌>>=◌}
use ossl_go.Ecdsa.{
  nonneg, decode_int, decode_pair, strip, integer_contents, encode_field, decode_field,
  decode_integer, marshal, unmarshal, fixed_width, lay_out, der_to_p1363, p1363_to_der,
}
use ossl_go.Ecdsa.Fields.{
  NoLeadingZero, strip-NoLeadingZero, length-strip, refill, length-integer_contents,
  decode_integer-contents, decode-encode_field, length-encode_field,
}

abbrev component : Bytes → Bytes
component m = encode_field 0x02 (integer_contents m)

contents_fit : (m : Bytes) → length m ≤ 123 → length (integer_contents m) < 256
contents_fit m h = omega (arith, length-integer_contents m)

length-component : (m : Bytes) → length m ≤ 123 → length (component m) ≤ 127
length-component m h = omega (
  arith,
  length-integer_contents m,
  length-encode_field 0x02 (integer_contents m) (contents_fit m h),
)

components_fit :
    (r s : Bytes) → length r ≤ 123 → length s ≤ 123 → length (component r ++ component s) < 256
components_fit r s h k =
    omega
      (arith, length-append (component r) (component s), length-component r h, length-component s k)

append_nil : (xs : Bytes) → xs ++ [] ≡ xs
append_nil [] = refl
append_nil (x ∷ xs) = ap (λ ys. x ∷ ys) (append_nil xs)

decode_last :
    (tag : ℕ) (contents : Bytes)
    → length contents < 256
    → decode_field tag (encode_field tag contents) ≡ ok (contents, [])
decode_last tag contents h =
    ap (decode_field tag) (sym (append_nil (encode_field tag contents)))
    ∙ decode-encode_field tag contents [] h

decode_int-component :
    (m rest : Bytes)
    → NoLeadingZero m
    → length m ≤ 123
    → decode_int (component m ++ rest) ≡ ok (nonneg m, rest)
unfolding decode_int
decode_int-component m rest h l =
    ap (λ f. f >>= λ (contents, rest). decode_integer contents >>= λ i. ok (i, rest))
      (decode-encode_field 0x02 (integer_contents m) rest (contents_fit m l))
    ∙ ap (λ f. f >>= λ i. ok (i, rest)) (decode_integer-contents m h)

decode_pair-components :
    (r s : Bytes)
    → NoLeadingZero r
    → NoLeadingZero s
    → length r ≤ 123
    → length s ≤ 123
    → decode_pair (component r ++ component s) ≡ ok (nonneg r, nonneg s)
unfolding decode_pair
decode_pair-components r s hr hs lr ls =
    ap (λ f. f >>= λ (i, rest). decode_int rest >>= λ (j, more). ok (i, j))
      (decode_int-component r (component s) hr lr)
    ∙ ap (λ bs. decode_int bs >>= λ (j, more). ok (nonneg r, j)) (sym (append_nil (component s)))
    ∙ ap (λ f. f >>= λ (j, more). ok (nonneg r, j)) (decode_int-component s [] hs ls)

-- The Go decoder reads back the two components that the Go encoder wrote.
unmarshal-marshal :
    (r s : Bytes)
    → NoLeadingZero r
    → NoLeadingZero s
    → length r ≤ 123
    → length s ≤ 123
    → unmarshal (marshal r s) ≡ ok ((nonneg r, nonneg s), [])
unfolding unmarshal marshal
unmarshal-marshal r s hr hs lr ls =
    ap (λ f. f >>= λ (inner, rest). decode_pair inner >>= λ v. ok (v, rest))
      (decode_last 0x30 (component r ++ component s) (components_fit r s lr ls))
    ∙ ap (λ f. f >>= λ v. ok (v, [])) (decode_pair-components r s hr hs lr ls)

lay_out-stripped :
    (xs ys : Bytes)
    → length ys ≡ length xs
    → lay_out (length xs) ((nonneg (strip xs), nonneg (strip ys)), []) ≡ ok (xs ++ ys)
unfolding lay_out
lay_out-stripped xs ys h =
    let f = refill xs in
    let g : fixed_width (length xs) (strip ys) ≡ ys =
      subst (λ (n : ℕ). fixed_width n (strip ys) ≡ ys) h (refill ys) in
    ground (arith, f, g, length-strip xs, length-strip ys)

not_refused {ℓ} : {A : Type ℓ} (b : Bool) (x y : A) → b ≡ true → (if not b then x else y) ≡ y
not_refused true x y h = refl
not_refused false x y h = absurd (cc h)

same_length : (m n : ℕ) → m ≡ n → (m == n) ≡ true
same_length m n h = ground arith

-- A signature in the P1363 form survives the way through DER: for a coordinate of 123 bytes at most,
-- any signature of twice that length is encoded, and decoding it gives it back.
pub der_to_p1363-p1363_to_der :
    (raw : Bytes) (coord : ℕ)
    → length raw ≡ 2 * coord
    → coord ≤ 123
    → (p1363_to_der raw coord >>= λ der. der_to_p1363 der coord) ≡ ok raw
unfolding p1363_to_der der_to_p1363 lay_out
der_to_p1363-p1363_to_der raw coord h k =
    let l : length (take coord raw) ≡ coord = omega (arith, length-take coord raw) in
    let m : length (drop coord raw) ≡ coord = omega (arith, length-drop coord raw) in
    let r = strip (take coord raw) in
    let s = strip (drop coord raw) in
    let u =
      unmarshal-marshal r s (strip-NoLeadingZero (take coord raw))
        (strip-NoLeadingZero (drop coord raw)) (omega (arith, length-strip (take coord raw)))
        (omega (arith, length-strip (drop coord raw))) in
    let p : p1363_to_der raw coord ≡ ok (marshal r s) =
      not_refused (length raw == 2 * coord) _ _ (same_length (length raw) (2 * coord) h) in
    ap (λ f. f >>= λ der. der_to_p1363 der coord) p
    ∙ ap (λ f. f >>= lay_out coord) u
    ∙ subst
        (λ (n : ℕ). lay_out n ((nonneg r, nonneg s), []) ≡ ok (take coord raw ++ drop coord raw)) l
        (lay_out-stripped (take coord raw) (drop coord raw) (m ∙ sym l))
    ∙ ap ok (take-append-drop coord raw)

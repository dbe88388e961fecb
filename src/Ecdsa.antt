-- ===== src/Ecdsa.antt =====
-- The two encodings of an ECDSA signature (ossl/sign.go): `derToP1363` and `p1363ToDER`, with what
-- they use of Go's encoding/asn1 and math/big: a SEQUENCE of two INTEGERs.
pub mod Fields
pub mod Width
pub mod RoundTrip
pub mod Tests
use ossl_go.Prelude.{
  ℕ, zero, suc, ◌+◌, ◌-◌, ◌*◌, ◌/◌, ◌%◌, Bytes, Bool, true, false, not, ◌&&◌, ◌||◌, List, [], ◌∷◌,
  ◌++◌, ltb, leb, ◌==◌, if◌then◌else◌, length, take, drop, replicate,
}
use ossl_go.Errors.{
  Result, ok, err, ◌>>=◌, refused, der_malformed, der_trailing, der_negative, der_wide,
  p1363_length,
}

-- A `big.Int` by what the code reads of it: its sign, and the `Bytes()` of one that is not negative.
pub data Integer : Type 0 where
  nonneg : Bytes → Integer
  negative : Integer

-- `new(big.Int).SetBytes(bs).Bytes()`
pub strip : Bytes → Bytes
strip [] = []
strip (zero ∷ bs) = strip bs
strip (suc b ∷ bs) = suc b ∷ bs

-- The contents of an INTEGER that is not negative.
pub integer_contents : Bytes → Bytes
integer_contents [] = 0 ∷ []
integer_contents (b ∷ bs) = if ltb b 0x80 then b ∷ bs else 0 ∷ b ∷ bs

-- The bytes of a number, the most significant first; `fuel` bounds their count.
pub length_bytes : ℕ → ℕ → Bytes
length_bytes zero n = []
length_bytes (suc fuel) n =
    let rest = length_bytes fuel (n / 256) in if n == 0 then [] else rest ++ (n % 256) ∷ []

-- The length octets of the Go encoder. An `int` has 8 bytes at most.
pub encode_length : ℕ → Bytes
unfolding length_bytes
encode_length n =
    let bs = length_bytes 8 n in if ltb n 0x80 then n ∷ [] else (0x80 + length bs) ∷ bs

pub encode_field : ℕ → Bytes → Bytes
unfolding encode_length
encode_field tag contents = tag ∷ encode_length (length contents) ++ contents

-- `asn1.Marshal(ecdsaSigValue{R: r, S: s})`
pub marshal : Bytes → Bytes → Bytes
unfolding encode_field integer_contents
marshal r s =
    encode_field 0x30
      (encode_field 0x02 (integer_contents r) ++ encode_field 0x02 (integer_contents s))

-- The loop of `parseTagAndLength` over the octets of a long length, with its checks.
pub decode_long : ℕ → ℕ → Bytes → Result (ℕ × Bytes)
decode_long zero n bs = if ltb n 0x80 then err (refused der_malformed) else ok (n, bs)
decode_long (suc k) n [] = err (refused der_malformed)
decode_long (suc k) n (b ∷ bs) =
    let rest = decode_long k (n * 256 + b) bs in
    if leb 8388608 n || (n * 256 + b == 0) then err (refused der_malformed) else rest

pub decode_length : Bytes → Result (ℕ × Bytes)
unfolding decode_long
decode_length [] = err (refused der_malformed)
decode_length (b ∷ bs) =
    if ltb b 0x80
    then ok (b, bs)
    else if b == 0x80
    then err (refused der_malformed)
    else decode_long (b - 0x80) 0 bs

-- The contents of that length, and what follows them.
pub cut : ℕ × Bytes → Result (Bytes × Bytes)
cut (n, rest) =
    if ltb (length rest) n then err (refused der_malformed) else ok (take n rest, drop n rest)

-- One element whose identifier is `tag`, and what follows it. A tag in the high form never has the
-- number of a SEQUENCE or an INTEGER.
pub decode_field : ℕ → Bytes → Result (Bytes × Bytes)
unfolding decode_length cut
decode_field tag [] = err (refused der_malformed)
decode_field tag (b ∷ bs) =
    if b == tag then decode_length bs >>= cut else err (refused der_malformed)

-- `checkInteger` and `parseBigInt`
pub decode_integer : Bytes → Result Integer
unfolding strip
decode_integer [] = err (refused der_malformed)
decode_integer (b ∷ []) = if leb 0x80 b then ok negative else ok (nonneg (strip (b ∷ [])))
decode_integer (b ∷ b' ∷ bs) =
    if ((b == 0) && ltb b' 0x80) || ((b == 0xff) && leb 0x80 b')
    then err (refused der_malformed)
    else if leb 0x80 b
    then ok negative
    else ok (nonneg (strip (b ∷ b' ∷ bs)))

-- An element read as a `*big.Int`, and what follows it.
pub decode_int : Bytes → Result (Integer × Bytes)
unfolding decode_field decode_integer
decode_int bs = do
  (contents, rest) ← decode_field 0x02 bs
  i ← decode_integer contents
  ok (i, rest)

-- The fields of the SEQUENCE. What follows the two INTEGERs inside it is allowed.
pub decode_pair : Bytes → Result (Integer × Integer)
unfolding decode_int
decode_pair inner = do (r, rest) ← decode_int inner; (s, more) ← decode_int rest; ok (r, s)

-- `asn1.Unmarshal(der, &v)`: the two components, and what follows the SEQUENCE.
pub unmarshal : Bytes → Result ((Integer × Integer) × Bytes)
unfolding decode_field decode_pair
unmarshal der = do (inner, rest) ← decode_field 0x30 der; v ← decode_pair inner; ok (v, rest)

-- `copy(out[coord-len(bs):coord], bs)` in a slice of zeros
pub fixed_width : ℕ → Bytes → Bytes
fixed_width coord bs = replicate (coord - length bs) 0 ++ bs

-- The checks and the copies after `asn1.Unmarshal`.
pub lay_out : ℕ → (Integer × Integer) × Bytes → Result Bytes
unfolding fixed_width
lay_out coord ((nonneg r, nonneg s), []) =
    if ltb coord (length r) || ltb coord (length s)
    then err (refused der_wide)
    else ok (fixed_width coord r ++ fixed_width coord s)
lay_out coord (v, []) = err (refused der_negative)
lay_out coord (v, b ∷ rest) = err (refused der_trailing)

unfoldable pub der_to_p1363 : Bytes → ℕ → Result Bytes
unfolding unmarshal lay_out
der_to_p1363 der coord = unmarshal der >>= lay_out coord

unfoldable pub p1363_to_der : Bytes → ℕ → Result Bytes
unfolding strip marshal
p1363_to_der raw coord =
    if not (length raw == 2 * coord)
    then err (refused p1363_length)
    else ok (marshal (strip (take coord raw)) (strip (drop coord raw)))

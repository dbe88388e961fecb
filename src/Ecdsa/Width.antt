-- ===== src/Ecdsa/Width.antt =====
-- The width of what `derToP1363` returns.
use ossl_go.Prelude.{
  ℕ, ◌-◌, ◌*◌, ◌≤◌, ◌≡◌, Bytes, [], ◌∷◌, ◌++◌, arith, length, replicate, length-append,
  length-replicate,
}
use ossl_go.Errors.{Result, ok, err, panic, ◌>>=◌}
use ossl_go.Ecdsa.{Integer, nonneg, negative, unmarshal, lay_out, fixed_width, der_to_p1363}

length-fixed_width :
    (coord : ℕ) (bs : Bytes) → length bs ≤ coord → length (fixed_width coord bs) ≡ coord
unfolding fixed_width
length-fixed_width coord bs h = omega (
  arith,
  length-append (replicate (coord - length bs) 0) bs,
  length-replicate {A = ℕ} (coord - length bs) 0,
)

both_fit :
    (coord : ℕ) (r s out : Bytes)
    → lay_out coord ((nonneg r, nonneg s), []) ≡ ok out
    → (length r ≤ coord) × (length s ≤ coord) × (fixed_width coord r ++ fixed_width coord s ≡ out)
unfolding lay_out
both_fit coord r s out h = (ground arith, ground arith, ground arith)

length-lay_out :
    (coord : ℕ) (v : (Integer × Integer) × Bytes) (out : Bytes)
    → lay_out coord v ≡ ok out
    → length out ≡ 2 * coord
unfolding lay_out
length-lay_out coord ((nonneg r, nonneg s), []) out h =
    let (lr, ls, e) = both_fit coord r s out h in
    ground (
      arith,
      e,
      length-append (fixed_width coord r) (fixed_width coord s),
      length-fixed_width coord r lr,
      length-fixed_width coord s ls,
    )
length-lay_out coord ((negative, s), []) out h = absurd (cc h)
length-lay_out coord ((nonneg r, negative), []) out h = absurd (cc h)
length-lay_out coord (v, b ∷ rest) out h = absurd (cc h)

after_unmarshal :
    (coord : ℕ) (u : Result ((Integer × Integer) × Bytes)) (out : Bytes)
    → (u >>= lay_out coord) ≡ ok out
    → length out ≡ 2 * coord
after_unmarshal coord (ok v) out h = length-lay_out coord v out h
after_unmarshal coord (err e) out h = absurd (cc h)
after_unmarshal coord (panic s) out h = absurd (cc h)

-- The result of `derToP1363` is twice as long as a coordinate.
pub length-der_to_p1363 :
    (der : Bytes) (coord : ℕ) (out : Bytes)
    → der_to_p1363 der coord ≡ ok out
    → length out ≡ 2 * coord
unfolding der_to_p1363
length-der_to_p1363 der coord out h = after_unmarshal coord (unmarshal der) out h

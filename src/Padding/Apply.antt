-- ===== src/Padding/Apply.antt =====
-- What `applyPadding` produces: the padded length.
use native.Mathlib.Nat.{mod-lt, mod-add-mod, mod_self, mod-eq-sub-mod}
use ossl_go.Prelude.{
  ◌⊎◌, inl, inr, Bytes, ℕ, ◌+◌, ◌-◌, ◌%◌, ◌≤◌, ◌<◌, ◌≡◌, ◌≢◌, refl, sym, ◌∙◌, ap, [], ◌∷◌, ◌++◌,
  arith, length, replicate, length-append, length-replicate, ◌==◌, if◌then◌else◌, inl, inr,
  Bool-cases,
}
use ossl_go.Errors.{ok}
use ossl_go.Padding.{PaddingScheme, no_padding, iso7816, x923, zeros, fill, apply_padding}

pub fill_bounds :
    (block : ℕ) (xs : Bytes) → 0 < block → (1 ≤ fill block xs) × (fill block xs ≤ block)
fill_bounds block xs h = omega (arith, mod-lt (length xs) h)

fill_sum : (block n : ℕ) → 0 < block → n % block + (block - n % block) ≡ block
fill_sum block n h = omega (arith, mod-lt n h)

pub fill_aligns : (block : ℕ) (xs : Bytes) → 0 < block → (length xs + fill block xs) % block ≡ 0
fill_aligns block xs h =
    sym (mod-add-mod (length xs) block (fill block xs))
    ∙ ap (λ (k : ℕ). k % block) (fill_sum block (length xs) h)
    ∙ mod_self block

abbrev some_block : ℕ → ℕ → ℕ
some_block block n = if n == block then 0 else n

length-apply_zeros : (xs : Bytes) (n : ℕ) → length (xs ++ replicate n 0) ≡ length xs + n
length-apply_zeros xs n =
    omega (arith, length-append xs (replicate n 0), length-replicate {A = ℕ} n 0)

pub length-apply_iso7816 :
    (xs : Bytes) (n : ℕ) → 1 ≤ n → length ((xs ++ 0x80 ∷ []) ++ replicate (n - 1) 0) ≡ length xs + n
length-apply_iso7816 xs n h = omega (
  arith,
  length-append (xs ++ 0x80 ∷ []) (replicate (n - 1) 0),
  length-append xs (0x80 ∷ []),
  length-replicate {A = ℕ} (n - 1) 0,
)

pub length-apply_x923 :
    (xs : Bytes) (n b : ℕ) → 1 ≤ n → length ((xs ++ replicate (n - 1) 0) ++ b ∷ []) ≡ length xs + n
length-apply_x923 xs n b h =
    omega (arith, length-append (xs ++ replicate (n - 1) 0) (b ∷ []), length-apply_zeros xs (n - 1))

-- a full block of zeros is left out
zeros_aligns :
    (block l n : ℕ) → 0 < block → (l + n) % block ≡ 0 → (l + some_block block n) % block ≡ 0
zeros_aligns block l n h e = elim (Bool-cases (n == block)) [
  | inl q ↦
      let full : l + 0 ≡ l + block - block = omega arith in
      let same : l + block ≡ l + n = ground arith in
      rw q (
        ap (λ (k : ℕ). k % block) full
        ∙ sym (mod-eq-sub-mod {n = l + block} {m = block} (omega arith))
        ∙ ap (λ (k : ℕ). k % block) same
        ∙ e)
  | inr q ↦ rw q e
]

-- Under ISO 7816-4, X9.23 and zero padding the result is a whole number of blocks and at most one
-- block longer than the input; unless it is zero padding, it is at least one byte longer.
pub length-apply_padding :
    (p : PaddingScheme) (xs out : Bytes) (block : ℕ)
    → 0 < block
    → p ≢ no_padding
    → apply_padding p xs block ≡ ok out
    → (length out % block ≡ 0)
      × (length out ≤ length xs + block)
      × ((p ≡ zeros) ⊎ (length xs < length out))
unfolding apply_padding
length-apply_padding no_padding xs out block h np e = absurd (np refl)
length-apply_padding zeros xs out block h np e =
    let m : ℕ = some_block block (fill block xs) in
    let o : xs ++ replicate m 0 ≡ out = cc in
    let l : length out ≡ length xs + m = ap length (sym o) ∙ length-apply_zeros xs m in
    (
      ap (λ (k : ℕ). k % block) l
          ∙ zeros_aligns block (length xs) (fill block xs) h (fill_aligns block xs h),
      ground (arith, fill_bounds block xs h),
      inl refl,
    )
length-apply_padding iso7816 xs out block h np e =
    let n : ℕ = fill block xs in
    let o : (xs ++ 0x80 ∷ []) ++ replicate (n - 1) 0 ≡ out = cc in
    let l : length out ≡ length xs + n =
      ap length (sym o) ∙ length-apply_iso7816 xs n (fill_bounds block xs h).0 in
    (
      ap (λ (k : ℕ). k % block) l ∙ fill_aligns block xs h,
      omega (arith, fill_bounds block xs h),
      inr (omega (arith, fill_bounds block xs h)),
    )
length-apply_padding x923 xs out block h np e =
    let n : ℕ = fill block xs in
    let o : (xs ++ replicate (n - 1) 0) ++ (n % 256) ∷ [] ≡ out = cc in
    let l : length out ≡ length xs + n =
      ap length (sym o) ∙ length-apply_x923 xs n (n % 256) (fill_bounds block xs h).0 in
    (
      ap (λ (k : ℕ). k % block) l ∙ fill_aligns block xs h,
      omega (arith, fill_bounds block xs h),
      inr (omega (arith, fill_bounds block xs h)),
    )
length-apply_padding _ xs out block h np e = cc

-- ===== src/Version/Order.antt =====
-- The comparison of versions is the order of pairs (ossl/ossl.go).
use ossl_go.Prelude.{
  ℕ, arith, ◌+◌, ◌*◌, ◌/◌, ◌%◌, ◌≤◌, ◌<◌, ◌≡◌, sym, ◌⊎◌, inl, inr, ◌↔◌, true, ◌&&◌, ◌||◌, ◌==◌, ltb,
  leb,
}
use ossl_go.Prelude.Int.{pos}
use ossl_go.Params.{wrap}
use ossl_go.Version.{at_least}

-- `0xMNN00PP0` for the version M.N.P
abbrev pub version_number : ℕ → ℕ → ℕ → ℕ
version_number major minor patch = major * 268435456 + minor * 1048576 + patch * 16

-- The order of pairs, the major part first.
abbrev pub NotBefore : ℕ → ℕ → ℕ → ℕ → Type 0
NotBefore a b major minor = (a < major) ⊎ ((a ≡ major) × (b ≤ minor))

major_part :
    (major minor patch : ℕ)
    → major < 16
    → minor < 256
    → patch < 65536
    → version_number major minor patch / 268435456 % 256 ≡ major
major_part major minor patch p q r = omega arith

minor_part :
    (major minor patch : ℕ)
    → major < 16
    → minor < 256
    → patch < 65536
    → version_number major minor patch / 1048576 % 256 ≡ minor
minor_part major minor patch p q r = omega arith

wrap_small : (n : ℕ) → n < 9223372036854775808 → wrap 64 (pos n) ≡ n
wrap_small n p = omega arith

compared_sound : (m n a b : ℕ) → (ltb a m || ((m == a) && leb b n)) ≡ true → NotBefore a b m n
compared_sound m n a b h = ground arith

compared_complete : (m n a b : ℕ) → NotBefore a b m n → (ltb a m || ((m == a) && leb b n)) ≡ true
compared_complete m n a b (inl h) = ground arith
compared_complete m n a b (inr (e, h)) = ground arith

NotBefore-same :
    (u v m n a b x y : ℕ) → u ≡ a → v ≡ b → m ≡ x → n ≡ y → NotBefore u v m n → NotBefore a b x y
NotBefore-same u v m n a b x y p q r s (inl l) = inl (omega arith)
NotBefore-same u v m n a b x y p q r s (inr (e, l)) = inr (omega arith, omega arith)

-- For a library whose version is `major`.`minor`.`patch`, in the layout 0xMNN00PP0 of its version
-- number, and arguments that are not negative: AtLeast says whether the version is at least a.b, with
-- the major part compared first.
pub at_least_exact :
    (major minor patch a b : ℕ)
    → major < 16
    → minor < 256
    → patch < 65536
    → a < 9223372036854775808
    → b < 9223372036854775808
    → at_least (version_number major minor patch) (pos a) (pos b) ≡ true ↔ NotBefore a b major minor
unfolding at_least
at_least_exact major minor patch a b p q r s t =
    let x = major_part major minor patch p q r in
    let y = minor_part major minor patch p q r in
    let u = wrap_small a s in
    let v = wrap_small b t in
    (
      λ h. NotBefore-same _ _ _ _ _ _ _ _ u v x y (compared_sound _ _ _ _ h),
      λ h.
          compared_complete _ _ _ _
            (NotBefore-same _ _ _ _ _ _ _ _ (sym u) (sym v) (sym x) (sym y) h),
    )

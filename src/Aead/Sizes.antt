-- ===== src/Aead/Sizes.antt =====
-- Which nonce and tag sizes `validateAEADSizes` accepts.
use ossl_go.Prelude.{ℕ, ◌%◌, ◌≤◌, ◌≡◌, ◌↔◌, refl, arith, Bool, true, false}
use ossl_go.Prelude.Int.{ℤ, pos, negsuc}
use ossl_go.Errors.{ok}
use ossl_go.Aead.{AeadConfig, validate_aead_sizes}

-- `n` is a number from `low` to `high`.
abbrev pub Within : ℕ → ℕ → ℤ → Type 0
Within low high n = (m : ℕ) × (n ≡ pos m) × (low ≤ m) × (m ≤ high)

-- CCM takes nonces of 7 to 13 bytes and even tags of 4 to 16 (NIST SP 800-38C); the other modes take
-- nonces of at least 1 byte and tags of 12 to 16.
abbrev pub ValidSizes : Bool → AeadConfig → Type 0
ValidSizes true cfg =
    Within 7 13 cfg.iv_len × ((m : ℕ) × (cfg.tag_len ≡ pos m) × (4 ≤ m) × (m ≤ 16) × (m % 2 ≡ 0))
ValidSizes false cfg = ((m : ℕ) × (cfg.iv_len ≡ pos m) × (1 ≤ m)) × Within 12 16 cfg.tag_len

valid :
    (ccm : Bool) (iv tag : ℤ)
    → validate_aead_sizes ccm (record { iv_len = iv; tag_len = tag }) ≡ ok tt
    → ValidSizes ccm (record { iv_len = iv; tag_len = tag })
unfolding validate_aead_sizes
valid true (pos n) (pos t) h =
    ((n, refl, ground arith, ground arith), (t, refl, ground arith, ground arith, ground arith))
valid true (negsuc n) t h = absurd (cc h)
valid true (pos n) (negsuc t) h = absurd (ground arith)
valid false (pos n) (pos t) h = ((n, refl, ground arith), (t, refl, ground arith, ground arith))
valid false (negsuc n) t h = absurd (cc h)
valid false (pos n) (negsuc t) h = absurd (ground arith)

accepted :
    (ccm : Bool) (iv tag : ℤ)
    → ValidSizes ccm (record { iv_len = iv; tag_len = tag })
    → validate_aead_sizes ccm (record { iv_len = iv; tag_len = tag }) ≡ ok tt
unfolding validate_aead_sizes
accepted true iv tag ((n, e, a, b), (t, f, c, d, g)) = ground (arith, e, f)
accepted false iv tag ((n, e, a), (t, f, c, d)) = ground (arith, e, f)

-- `validate_aead_sizes` accepts just the sizes of the mode: under CCM a nonce of 7 to 13 bytes and an
-- even tag of 4 to 16, under another mode a nonce of at least 1 byte and a tag of 12 to 16.
pub validate_aead_sizes_exact :
    (ccm : Bool) (cfg : AeadConfig) → validate_aead_sizes ccm cfg ≡ ok tt ↔ ValidSizes ccm cfg
validate_aead_sizes_exact ccm cfg =
    (valid ccm cfg.iv_len cfg.tag_len, accepted ccm cfg.iv_len cfg.tag_len)

-- ===== src/Padding/Tests.antt =====
-- Tests of the paddings, and the theorems at concrete inputs.
use ossl_go.Prelude.{
  Bytes, ◌≤◌, ◌<◌, ◌+◌, ◌-◌, ◌%◌, ◌≡◌, ◌++◌, ◌⊎◌, arith, length, replicate, refl, [], ◌∷◌,
}
use ossl_go.Errors.{ok}
use ossl_go.Padding.{x923, iso7816, zeros, apply_padding, remove_padding}
use ossl_go.Padding.Apply.{length-apply_padding}
use ossl_go.Padding.Remove.{remove-apply_padding, remove_iso7816_sound}

abbrev five : Bytes
five = 1 ∷ 2 ∷ 0 ∷ 4 ∷ 0x80 ∷ []

apply-iso7816 : apply_padding iso7816 five 8 ≡ ok (1 ∷ 2 ∷ 0 ∷ 4 ∷ 0x80 ∷ 0x80 ∷ 0 ∷ 0 ∷ [])
unfolding apply_padding
apply-iso7816 = refl

apply-x923 : apply_padding x923 five 8 ≡ ok (1 ∷ 2 ∷ 0 ∷ 4 ∷ 0x80 ∷ 0 ∷ 0 ∷ 3 ∷ [])
unfolding apply_padding
apply-x923 = refl

remove-x923 : remove_padding x923 (1 ∷ 2 ∷ 0 ∷ 4 ∷ 0x80 ∷ 0 ∷ 0 ∷ 3 ∷ []) 8 ≡ ok five
unfolding remove_padding
remove-x923 = refl

remove-iso7816 : remove_padding iso7816 (1 ∷ 2 ∷ 0 ∷ 4 ∷ 0x80 ∷ 0x80 ∷ 0 ∷ 0 ∷ []) 8 ≡ ok five
unfolding remove_padding
remove-iso7816 = refl

remove-apply_padding_example :
    remove_padding x923 (1 ∷ 2 ∷ 0 ∷ 4 ∷ 0x80 ∷ 0 ∷ 0 ∷ 3 ∷ []) 8 ≡ ok five
remove-apply_padding_example =
    remove-apply_padding x923 five (1 ∷ 2 ∷ 0 ∷ 4 ∷ 0x80 ∷ 0 ∷ 0 ∷ 3 ∷ []) 8 (omega arith)
      (omega arith) (λ e. cc e) apply-x923

abbrev padded : Bytes
padded = 1 ∷ 2 ∷ 0 ∷ 4 ∷ 0x80 ∷ 0x80 ∷ 0 ∷ 0 ∷ []

length-apply_padding_example :
    (length padded % 8 ≡ 0)
    × (length padded ≤ length five + 8)
    × ((iso7816 ≡ zeros) ⊎ (length five < length padded))
length-apply_padding_example =
    length-apply_padding iso7816 five padded 8 (omega arith) (λ e. cc e) apply-iso7816

remove_iso7816_sound_example : padded ≡ five ++ 0x80 ∷ replicate (length padded - length five - 1) 0
remove_iso7816_sound_example = remove_iso7816_sound padded five 8 remove-iso7816

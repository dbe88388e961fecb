-- ===== src/Padding.antt =====
-- The paddings that ossl/cipher_sym.go applies and removes itself: `PaddingScheme`, `applyPadding`
-- and `removePadding`. A byte is a number below 256, a slice a list, and `block` is positive.
pub mod Apply
pub mod Remove
pub mod Tests
use Prim.Native.Nat.{bit_or}
use mathlib.Core.List.{foldl}
use ossl_go.Prelude.{
  ℕ, Bytes, zero, suc, ◌-◌, ◌%◌, Bool, ◌||◌, not, String, List, [], ◌∷◌, ◌++◌, Option, none, some,
  ltb, ◌==◌, if◌then◌else◌, length, get_or, take, drop, replicate,
}
use ossl_go.Errors.{Result, ok, err, verification, refused, padding_not_here}

-- The named values of the Go `int` type, and any other value of it.
pub data PaddingScheme : Type 0 where
  pkcs7 : PaddingScheme
  no_padding : PaddingScheme
  iso7816 : PaddingScheme
  x923 : PaddingScheme
  zeros : PaddingScheme
  unknown : PaddingScheme

pub scheme_name : PaddingScheme → String
scheme_name pkcs7 = "PKCS#7"
scheme_name no_padding = "none"
scheme_name iso7816 = "ISO/IEC 7816-4"
scheme_name x923 = "ANSI X9.23"
scheme_name zeros = "zero"
scheme_name unknown = "unknown"

-- block - len(in) % block, computed by each branch of `applyPadding`.
abbrev pub fill : ℕ → Bytes → ℕ
fill block xs = block - length xs % block

unfoldable pub apply_padding : PaddingScheme → Bytes → ℕ → Result Bytes
apply_padding no_padding xs block = ok xs
apply_padding zeros xs block =
    let n = fill block xs in let m : ℕ = if n == block then 0 else n in ok (xs ++ replicate m 0)
apply_padding iso7816 xs block =
    let n = fill block xs in ok ((xs ++ 0x80 ∷ []) ++ replicate (n - 1) 0)
apply_padding x923 xs block =
    let n = fill block xs in ok ((xs ++ replicate (n - 1) 0) ++ (n % 256) ∷ [])
apply_padding pkcs7 xs block = err (refused padding_not_here)
apply_padding unknown xs block = err (refused padding_not_here)

-- `for i >= 0 && in[i] == 0x00 { i-- }` and the test below it, from i = n - 1: the index of the
-- marker, or none.
pub marker : Bytes → ℕ → Option ℕ
marker xs zero = none
marker xs (suc i) =
    let rest = marker xs i in
    if get_or xs i 0 == 0 then rest else if get_or xs i 0 == 0x80 then some i else none

-- `for _, b := range xs { acc |= b }`
pub or_all : Bytes → ℕ
or_all = foldl bit_or 0

remove_iso7816 : Bytes → Result Bytes
unfolding marker
remove_iso7816 xs =
    if length xs == 0
    then err verification
    else elim (marker xs (length xs)) [ none ↦ err verification | some i ↦ ok (take i xs) ]

remove_x923 : Bytes → ℕ → Result Bytes
remove_x923 xs block =
    let len = length xs in
    let n = get_or xs (len - 1) 0 in
    if (len == 0) || not (len % block == 0)
    then err verification
    else if (n == 0) || (ltb block n || ltb len n)
    then err verification
    else if or_all (drop (len - n) (take (len - 1) xs)) == 0
    then ok (take (len - n) xs)
    else err verification

unfoldable pub remove_padding : PaddingScheme → Bytes → ℕ → Result Bytes
unfolding remove_iso7816 remove_x923 or_all
remove_padding iso7816 xs block = remove_iso7816 xs
remove_padding x923 xs block = remove_x923 xs block
remove_padding _ xs block = ok xs

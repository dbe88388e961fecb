-- ===== src/Padding/Remove.antt =====
-- What `removePadding` accepts, and that it undoes `applyPadding`.
use mathlib.Core.List.{append_assoc}
use mathlib.Core.Path.{ap₂, subst}
use native.Mathlib.Nat.{suc-add, mod-eq_of_lt}
use ossl_go.Padding.Apply.{fill_bounds, length-apply_padding}
use ossl_go.Prelude.{
  Bytes, ℕ, zero, suc, ◌+◌, ◌-◌, ◌%◌, ◌≤◌, ◌<◌, ◌≡◌, ◌≢◌, refl, sym, ◌∙◌, ap, [], ◌∷◌, ◌++◌, arith,
  length, replicate, length-append, length-replicate, get_or, take, drop, some, none,
  get_or-append_right, get_or-replicate, take-append, drop-append, length-drop, length-take,
  Option-cases, split_at, replicate_of_get_or, get_or-drop, ◌==◌, Bool-cases, inl, inr,
}
use ossl_go.Errors.{Error, err, verification, ok}
use ossl_go.Padding.{
  PaddingScheme, pkcs7, no_padding, iso7816, x923, zeros, unknown, fill, apply_padding, marker,
  remove_padding, remove_iso7816, remove_x923, or_all,
}

-- zero bytes at the end are skipped
marker-add :
    (xs : Bytes) (n k : ℕ) → ((i : ℕ) → n ≤ i → get_or xs i 0 ≡ 0) → marker xs (k + n) ≡ marker xs n
unfolding marker
marker-add xs n zero h = ap (marker xs) (omega arith)
marker-add xs n (suc k) h = rw (suc-add k n) (rw (h (k + n) (omega arith)) (marker-add xs n k h))

marker_sound :
    (xs : Bytes) (n i : ℕ)
    → marker xs n ≡ some i
    → (i < n) × (get_or xs i 0 ≡ 0x80) × ((j : ℕ) → i < j → j < n → get_or xs j 0 ≡ 0)
unfolding marker
marker_sound xs zero i e = cc
marker_sound xs (suc n) i e = elim (Bool-cases (get_or xs n 0 == 0)) [
  | inl z ↦
      let (lt, at, after) = marker_sound xs n i (rw z at e) in
      (
        omega arith,
        at,
        λ j above below. elim (Bool-cases (j == n)) [
          | inl here ↦ ground arith
          | inr below_n ↦ after j above (ground arith)
        ],
      )
  | inr z ↦ elim (Bool-cases (get_or xs n 0 == 0x80)) [
    | inl found ↦
        let e' : some n ≡ some i = rw (z, found) at e in
        let same : n ≡ i = cc in (omega arith, ground arith, λ j above below. absurd (omega arith))
    | inr other ↦ let e' : none ≡ some i = rw (z, other) at e in cc
  ]
]

abbrev iso_padded : Bytes → ℕ → Bytes
iso_padded xs m = xs ++ 0x80 ∷ replicate m 0

iso_tail : (xs : Bytes) (m i : ℕ) → suc (length xs) ≤ i → get_or (iso_padded xs m) i 0 ≡ 0
iso_tail xs m i h =
    let e : i - length xs ≡ suc (i - length xs - 1) = omega arith in
    get_or-append_right xs (0x80 ∷ replicate m 0) i 0 (omega arith)
    ∙ ap (λ (k : ℕ). get_or (0x80 ∷ replicate m 0) k 0) e
    ∙ get_or-replicate m (i - length xs - 1) 0

iso_at : (xs : Bytes) (m : ℕ) → get_or (iso_padded xs m) (length xs) 0 ≡ 0x80
iso_at xs m =
    let e : length xs - length xs ≡ 0 = omega arith in
    get_or-append_right xs (0x80 ∷ replicate m 0) (length xs) 0 (omega arith)
    ∙ ap (λ (k : ℕ). get_or (0x80 ∷ replicate m 0) k 0) e

marker-iso_padded :
    (xs : Bytes) (m : ℕ) → marker (iso_padded xs m) (suc (length xs)) ≡ some (length xs)
unfolding marker
marker-iso_padded xs m = rw (iso_at xs m)

length-iso_padded : (xs : Bytes) (m : ℕ) → length (iso_padded xs m) ≡ m + suc (length xs)
length-iso_padded xs m =
    omega (arith, length-append xs (0x80 ∷ replicate m 0), length-replicate {A = ℕ} m 0)

remove_iso7816-padded : (xs : Bytes) (m : ℕ) → remove_iso7816 (iso_padded xs m) ≡ ok xs
unfolding remove_iso7816
remove_iso7816-padded xs m =
    let e : marker (iso_padded xs m) (length (iso_padded xs m)) ≡ some (length xs) =
      ap (marker (iso_padded xs m)) (length-iso_padded xs m)
      ∙ marker-add (iso_padded xs m) (suc (length xs)) m (iso_tail xs m)
      ∙ marker-iso_padded xs m in
    let t : take (length xs) (iso_padded xs m) ≡ xs = take-append xs (0x80 ∷ replicate m 0) in
    ground (arith, length-iso_padded xs m)

remove-apply_iso7816 :
    (xs out : Bytes) (block : ℕ)
    → apply_padding iso7816 xs block ≡ ok out
    → remove_padding iso7816 out block ≡ ok xs
unfolding remove_padding apply_padding
remove-apply_iso7816 xs out block e =
    let n : ℕ = fill block xs in
    let o : (xs ++ 0x80 ∷ []) ++ replicate (n - 1) 0 ≡ out = cc in
    let p : iso_padded xs (n - 1) ≡ out =
      sym (append_assoc xs (0x80 ∷ []) (replicate (n - 1) 0)) ∙ o in
    subst (λ zs. remove_iso7816 zs ≡ ok xs) p (remove_iso7816-padded xs (n - 1))

-- X9.23
or_all-replicate : (m : ℕ) → or_all (replicate m 0) ≡ 0
unfolding or_all
or_all-replicate zero = refl
or_all-replicate (suc m) = or_all-replicate m

abbrev x923_padded : Bytes → ℕ → Bytes
x923_padded xs m = (xs ++ replicate m 0) ++ suc m ∷ []

length-x923_padded : (xs : Bytes) (m : ℕ) → length (x923_padded xs m) ≡ length xs + m + 1
length-x923_padded xs m = omega (
  arith,
  length-append (xs ++ replicate m 0) (suc m ∷ []),
  length-append xs (replicate m 0),
  length-replicate {A = ℕ} m 0,
)

accept_x923 :
    (z xs : Bytes) (m block : ℕ)
    → length z ≡ length xs + m + 1
    → m < block
    → length z % block ≡ 0
    → get_or z (length z - 1) 0 ≡ suc m
    → or_all (drop (length z - suc m) (take (length z - 1) z)) ≡ 0
    → take (length z - suc m) z ≡ xs
    → remove_x923 z block ≡ ok xs
unfolding remove_x923
accept_x923 z xs m block lz lt al last mid res = ground arith

remove_x923-padded :
    (xs : Bytes) (m block : ℕ)
    → m < block
    → length (x923_padded xs m) % block ≡ 0
    → remove_x923 (x923_padded xs m) block ≡ ok xs
remove_x923-padded xs m block lt al =
    let z = x923_padded xs m in
    let ys = xs ++ replicate m 0 in
    let lz : length z ≡ length xs + m + 1 = length-x923_padded xs m in
    let lh : length z - 1 ≡ length ys =
      omega (arith, length-append xs (replicate m 0), length-replicate {A = ℕ} m 0) in
    let le : length z - 1 - length ys ≡ 0 = omega arith in
    let last : get_or z (length z - 1) 0 ≡ suc m =
      get_or-append_right ys (suc m ∷ []) (length z - 1) 0 (omega arith)
      ∙ ap (λ (k : ℕ). get_or (suc m ∷ []) k 0) le in
    let body : take (length z - 1) z ≡ ys =
      ap (λ (k : ℕ). take k z) lh ∙ take-append ys (suc m ∷ []) in
    let front : length z - suc m ≡ length xs = omega arith in
    let mid : drop (length z - suc m) (take (length z - 1) z) ≡ replicate m 0 =
      ap₂ drop front body ∙ drop-append xs (replicate m 0) in
    let res : take (length z - suc m) z ≡ xs =
      ap₂ take front (append_assoc xs (replicate m 0) (suc m ∷ []))
      ∙ take-append xs (replicate m 0 ++ suc m ∷ []) in
    accept_x923 z xs m block lz lt al last (ap or_all mid ∙ or_all-replicate m) res

remove-apply_x923 :
    (xs out : Bytes) (block : ℕ)
    → 0 < block
    → block < 256
    → apply_padding x923 xs block ≡ ok out
    → remove_padding x923 out block ≡ ok xs
unfolding remove_padding apply_padding
remove-apply_x923 xs out block pos fits e =
    let n : ℕ = fill block xs in
    let b : n % 256 ≡ suc (n - 1) =
      mod-eq_of_lt {n = n} {m = 256} (omega (arith, fill_bounds block xs pos))
      ∙ omega (arith, fill_bounds block xs pos) in
    let o : (xs ++ replicate (n - 1) 0) ++ (n % 256) ∷ [] ≡ out = cc in
    let p : x923_padded xs (n - 1) ≡ out =
      ap (λ (k : ℕ). (xs ++ replicate (n - 1) 0) ++ k ∷ []) (sym b) ∙ o in
    rw (← p) (
      remove_x923-padded xs (n - 1) block (omega (arith, fill_bounds block xs pos)) (
        ap (λ zs. length zs % block) p
        ∙ (length-apply_padding x923 xs out block pos (λ q. cc) e).0))

-- Removing a padding undoes applying it, for ISO 7816-4, X9.23 and no padding, with blocks of 1 to
-- 255 bytes, whatever bytes the input ends with.
pub remove-apply_padding :
    (p : PaddingScheme) (xs out : Bytes) (block : ℕ)
    → 0 < block
    → block < 256
    → p ≢ zeros
    → apply_padding p xs block ≡ ok out
    → remove_padding p out block ≡ ok xs
remove-apply_padding no_padding xs out block pos fits ne e =
    unfold apply_padding remove_padding in cc
remove-apply_padding iso7816 xs out block pos fits ne e = remove-apply_iso7816 xs out block e
remove-apply_padding x923 xs out block pos fits ne e = remove-apply_x923 xs out block pos fits e
remove-apply_padding zeros xs out block pos fits ne e = absurd (ne refl)
remove-apply_padding pkcs7 xs out block pos fits ne e = unfold apply_padding in cc
remove-apply_padding unknown xs out block pos fits ne e = unfold apply_padding in cc

split_marker :
    (xs : Bytes) (i : ℕ)
    → marker xs (length xs) ≡ some i
    → xs ≡ iso_padded (take i xs) (length xs - suc i)
split_marker xs i e =
    let (lt, at, after) = marker_sound xs (length xs) i e in
    let rest : drop (suc i) xs ≡ replicate (length xs - suc i) 0 =
      replicate_of_get_or (drop (suc i) xs) 0 (λ (j : ℕ) (below : j < length (drop (suc i) xs)).
        get_or-drop (suc i) j xs 0
        ∙ after (suc i + j) (omega arith) (omega (arith, length-drop (suc i) xs)))
      ∙ ap (λ (k : ℕ). replicate k 0) (length-drop (suc i) xs) in
    split_at xs i 0 lt ∙ ap₂ (λ (b : ℕ) (r : Bytes). take i xs ++ b ∷ r) at rest

-- What ISO 7816-4 removal accepts is its result, the marker byte 0x80 and zeros, and nothing else.
pub remove_iso7816_sound :
    (xs out : Bytes) (block : ℕ)
    → remove_padding iso7816 xs block ≡ ok out
    → xs ≡ out ++ 0x80 ∷ replicate (length xs - length out - 1) 0
unfolding remove_padding remove_iso7816
remove_iso7816_sound xs out block e = elim (Option-cases (marker xs (length xs))) [
  | inl missing ↦ absurd (ground arith)
  | inr (i, found) ↦
      let o : take i xs ≡ out = ground arith in
      let l : length out ≡ i =
        ap length (sym o)
        ∙ length-take i xs
        ∙ omega (arith, (marker_sound xs (length xs) i found).0) in
      split_marker xs i found
      ∙ ap₂ (λ (ys : Bytes) (k : ℕ). ys ++ 0x80 ∷ replicate k 0) o (omega arith)
]

iso7816_error : (xs : Bytes) (e : Error) → remove_iso7816 xs ≡ err e → e ≡ verification
unfolding remove_iso7816
iso7816_error xs e h = elim (Option-cases (marker xs (length xs))) [
  | inl missing ↦ ground arith
  | inr (i, found) ↦ ground arith
]

x923_error : (xs : Bytes) (block : ℕ) (e : Error) → remove_x923 xs block ≡ err e → e ≡ verification
unfolding remove_x923
x923_error xs block e h = ground arith

pub remove_padding_error :
    (p : PaddingScheme) (xs : Bytes) (block : ℕ) (e : Error)
    → remove_padding p xs block ≡ err e
    → e ≡ verification
unfolding remove_padding
remove_padding_error iso7816 xs block e h = iso7816_error xs e h
remove_padding_error x923 xs block e h = x923_error xs block e h
remove_padding_error _ xs block e h = absurd (cc h)

-- ===== src/Mac/Compare.antt =====
-- The comparison of two tags (ossl/mac.go).
use ossl_go.Prelude.{arith, ◌≡◌, ◌↔◌, refl, subst, Bytes, true, [], ◌∷◌, ==_iff}
use ossl_go.Mac.Stream.{constant_time_compare, equal_mac}

same_of_compare : (a b : Bytes) → constant_time_compare a b ≡ 1 → a ≡ b
same_of_compare [] [] h = refl
same_of_compare [] (y ∷ ys) h = absurd (omega arith)
same_of_compare (x ∷ xs) [] h = absurd (omega arith)
same_of_compare (x ∷ xs) (y ∷ ys) h = ground (arith, same_of_compare xs ys)

compare_self : (a : Bytes) → constant_time_compare a a ≡ 1
compare_self [] = refl
compare_self (x ∷ xs) = ground (arith, compare_self xs)

-- EqualMAC accepts just equal tags: of the same length, and with the same bytes.
pub equal_mac_exact : (a b : Bytes) → equal_mac a b ≡ true ↔ a ≡ b
unfolding equal_mac
equal_mac_exact a b = (
  λ h. same_of_compare a b ((==_iff _ 1).0 h),
  λ e. (==_iff _ 1).1 (subst (λ (c : Bytes). constant_time_compare a c ≡ 1) e (compare_self a)),
)

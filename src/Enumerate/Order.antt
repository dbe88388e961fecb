-- ===== src/Enumerate/Order.antt =====
-- The order of names, and what sorting by it does.
use ossl_go.Prelude.{
  ℕ, ◌≡◌, refl, ◌∙◌, arith, Bool, true, false, ◌||◌, String, List, [], ◌∷◌, ◌++◌, if◌then◌else◌,
}
use ossl_go.Names.{codes}
use ossl_go.Enumerate.{
  same_codes, less_codes, same_name, less_name, has_name, insert_name, sort_names,
}

same_codes_symm : (a b : List ℕ) → same_codes a b ≡ same_codes b a
unfolding same_codes
same_codes_symm [] [] = refl
same_codes_symm [] (y ∷ ys) = refl
same_codes_symm (x ∷ xs) [] = refl
same_codes_symm (x ∷ xs) (y ∷ ys) = ground (arith, same_codes_symm xs ys)

same_codes_trans : (a b c : List ℕ) → same_codes a b ≡ true → same_codes b c ≡ same_codes a c
unfolding same_codes
same_codes_trans [] [] c h = refl
same_codes_trans [] (y ∷ ys) c h = absurd (cc h)
same_codes_trans (x ∷ xs) [] c h = absurd (cc h)
same_codes_trans (x ∷ xs) (y ∷ ys) [] h = refl
same_codes_trans (x ∷ xs) (y ∷ ys) (z ∷ zs) h = ground (arith, same_codes_trans xs ys zs)

less_codes-total :
    (a b : List ℕ) → same_codes a b ≡ false → less_codes b a ≡ false → less_codes a b ≡ true
unfolding same_codes less_codes
less_codes-total [] [] p q = absurd (cc p)
less_codes-total [] (y ∷ ys) p q = refl
less_codes-total (x ∷ xs) [] p q = absurd (cc q)
less_codes-total (x ∷ xs) (y ∷ ys) p q = ground (arith, less_codes-total xs ys)

-- Each name is below the next, so that none occurs twice.
abbrev pub Ascending : List String → Type 0
Ascending [] = Unit
Ascending (x ∷ []) = Unit
Ascending (x ∷ y ∷ xs) = (less_name x y ≡ true) × Ascending (y ∷ xs)

below_head :
    (a x z : String) (rest zs : List String) (b : Bool)
    → less_name a x ≡ true
    → less_name a z ≡ true
    → Ascending (if b then z ∷ rest else x ∷ zs)
    → Ascending (a ∷ (if b then z ∷ rest else x ∷ zs))
below_head a x z rest zs true p q h = (q, h)
below_head a x z rest zs false p q h = (p, h)

insert-head :
    (a x : String) (ys : List String)
    → less_name a x ≡ true
    → Ascending (a ∷ ys)
    → Ascending (insert_name x ys)
    → Ascending (a ∷ insert_name x ys)
unfolding insert_name
insert-head a x [] l p q = (l, tt)
insert-head a x (y ∷ ys) l p q =
    below_head a x y (insert_name x ys) (y ∷ ys) (less_name y x) l p.0 q

tail-Ascending : (x : String) (xs : List String) → Ascending (x ∷ xs) → Ascending xs
tail-Ascending x [] p = tt
tail-Ascending x (y ∷ ys) p = p.1

less_name-total :
    (x y : String) → same_name x y ≡ false → less_name y x ≡ false → less_name x y ≡ true
unfolding same_name less_name
less_name-total x y p q = less_codes-total (codes x) (codes y) p q

placed :
    (x y : String) (rest ys : List String) (b : Bool)
    → less_name y x ≡ b
    → same_name x y ≡ false
    → Ascending (y ∷ ys)
    → (less_name y x ≡ true → Ascending (y ∷ rest))
    → Ascending (if b then y ∷ rest else x ∷ y ∷ ys)
placed x y rest ys true e n p k = k e
placed x y rest ys false e n p k = (less_name-total x y n e, p)

-- Inserting a name that is not there keeps the order.
insert_name-Ascending :
    (x : String) (ys : List String)
    → has_name x ys ≡ false
    → Ascending ys
    → Ascending (insert_name x ys)
unfolding insert_name has_name
insert_name-Ascending x [] n p = tt
insert_name-Ascending x (y ∷ ys) n p =
    placed x y (insert_name x ys) ys (less_name y x) refl (ground arith) p λ l.
      insert-head y x ys l p (insert_name-Ascending x ys (ground arith) (tail-Ascending y ys p))

has-insert :
    (s x : String) (ys : List String)
    → has_name s (insert_name x ys) ≡ (same_name s x || has_name s ys)
unfolding insert_name has_name
has-insert s x [] = refl
has-insert s x (y ∷ ys) = ground (arith, has-insert s x ys)

-- Sorting keeps the names.
pub has-sort : (s : String) (xs : List String) → has_name s (sort_names xs) ≡ has_name s xs
unfolding sort_names has_name
has-sort s [] = refl
has-sort s (x ∷ xs) = ground (arith, has-insert s x (sort_names xs), has-sort s xs)

-- No two of the names are the same.
abbrev pub Distinct : List String → Type 0
Distinct [] = Unit
Distinct (x ∷ xs) = (has_name x xs ≡ false) × Distinct xs

-- Sorting distinct names puts each below the next.
pub sort_names-Ascending : (xs : List String) → Distinct xs → Ascending (sort_names xs)
unfolding sort_names
sort_names-Ascending [] d = tt
sort_names-Ascending (x ∷ xs) (n, d) =
    insert_name-Ascending x (sort_names xs) (has-sort x xs ∙ n) (sort_names-Ascending xs d)

-- The same name is found at the same places.
pub has-same :
    (s x : String) (xs : List String) → same_name s x ≡ true → has_name x xs ≡ has_name s xs
unfolding has_name same_name
has-same s x [] h = refl
has-same s x (y ∷ ys) h =
    ground (arith, has-same s x ys h, same_codes_trans (codes s) (codes x) (codes y) h)

pub has-append :
    (s : String) (xs ys : List String) → has_name s (xs ++ ys) ≡ (has_name s xs || has_name s ys)
unfolding has_name
has-append s [] ys = refl
has-append s (x ∷ xs) ys = ground (arith, has-append s xs ys)

-- A name that is not there may be put at the end.
pub append-Distinct :
    (xs : List String) (x : String) → Distinct xs → has_name x xs ≡ false → Distinct (xs ++ x ∷ [])
unfolding has_name same_name
append-Distinct [] x d n = (refl, tt)
append-Distinct (y ∷ ys) x (m, d) n = (
  ground (arith, has-append y ys (x ∷ []), same_codes_symm (codes x) (codes y)),
  append-Distinct ys x d (ground (arith)),
)

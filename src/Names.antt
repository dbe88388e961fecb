-- ===== src/Names.antt =====
-- Tests on the algorithm names of ossl/names.go, which are open string types: Go's `==`,
-- `strings.HasPrefix`, and the prefix of `strings.ToUpper` (on ASCII).
pub mod Tests
use Prim.Native.Char.{code}
use ossl_go.Prelude.{
  ℕ, ◌+◌, ◌-◌, ◌/◌, ◌%◌, Bool, true, false, ◌&&◌, ◌||◌, String, List, [], ◌∷◌, ◌++◌, map, ltb, leb,
  ◌==◌, if◌then◌else◌, str_append, str_eq,
}

-- The code points of a text.
abbrev pub codes : String → List ℕ
codes String.[] = []
codes (String.◌∷◌ c s) = code c ∷ codes s

abbrev pub to_upper : ℕ → ℕ
to_upper c = if leb b'a' c && leb c b'z' then c - 32 else c

abbrev pub is_prefix : List ℕ → List ℕ → Bool
is_prefix [] ys = true
is_prefix (x ∷ xs) [] = false
is_prefix (x ∷ xs) (y ∷ ys) = (x == y) && is_prefix xs ys

-- `strings.HasPrefix(s, prefix)` and `strings.HasPrefix(strings.ToUpper(s), prefix)`
unfoldable pub has_prefix : String → String → Bool
has_prefix s prefix = is_prefix (codes prefix) (codes s)

unfoldable pub upper_has_prefix : String → String → Bool
upper_has_prefix s prefix = is_prefix (codes prefix) (map to_upper (codes s))

-- `PropertyQuery.AND`
unfoldable pub and_query : String → String → String
and_query q other =
    if str_eq q ""
    then other
    else if str_eq other ""
    then q
    else str_append q (str_append "," other)

-- `strings.EqualFold(s, t)` (on ASCII)
unfoldable pub equal_fold : String → String → Bool
equal_fold s t =
    let a = map to_upper (codes s) in
    let b = map to_upper (codes t) in is_prefix a b && is_prefix b a

-- `[]byte(s)`: the UTF-8 encoding.
abbrev pub utf8_char : ℕ → List ℕ
utf8_char c =
    if ltb c 0x80
    then c ∷ []
    else if ltb c 0x800
    then (0xC0 + c / 0x40) ∷ (0x80 + c % 0x40) ∷ []
    else if ltb c 0x10000
    then (0xE0 + c / 0x1000) ∷ (0x80 + c / 0x40 % 0x40) ∷ (0x80 + c % 0x40) ∷ []
    else (0xF0 + c / 0x40000)
      ∷ (0x80 + c / 0x1000 % 0x40)
      ∷ (0x80 + c / 0x40 % 0x40)
      ∷ (0x80 + c % 0x40)
      ∷ []

pub utf8_all : List ℕ → List ℕ
utf8_all [] = []
utf8_all (c ∷ cs) = utf8_char c ++ utf8_all cs

unfoldable pub utf8_bytes : String → List ℕ
unfolding utf8_all
utf8_bytes s = utf8_all (codes s)

-- ===== src/Enumerate.antt =====
-- ossl/enumerate.go: the names of what the providers of a context supply. libcrypto calls back once for
-- each algorithm; the callback (in C, at the head of the file) asks for the name and appends it to an
-- array of 512 places, once. `strdup` is taken to succeed.
pub mod Order
pub mod Collected
pub mod Exact
pub mod Owned
pub mod Parse
pub mod Curves
pub mod Tests
use ossl_go.Prelude.{
  ℕ, zero, suc, Bool, true, false, ◌&&◌, ◌||◌, String, str_eq, List, [], ◌∷◌, ◌++◌, Option, none,
  some, ltb, leb, ◌==◌, if◌then◌else◌, length,
}
use ossl_go.Prelude.Int.{eq_ℕ}
use ossl_go.Errors.{
  Result, ok, err, panic, closed, refused, too_many_names, name_unavailable, name_empty,
}
use ossl_go.Cgo.{
  World, Go, Arg, Reply, str, ptr, null, pure, fail, ◌>>=◌, ◌>>◌, call, acquire, deferred, release,
  with_cstring, clear_errors, using_or_else, bump,
}
use ossl_go.Params.{release_all}
use ossl_go.Names.{codes}
use ossl_go.SignOptions.{is_set}
use ossl_go.Errors.{digest_unavailable}
use ossl_go.Context.{Context, context_ptr}

-- `strcmp(a, b) == 0`, and the order of `sort.Strings`, on the code points.
pub same_codes : List ℕ → List ℕ → Bool
same_codes [] [] = true
same_codes [] (y ∷ ys) = false
same_codes (x ∷ xs) [] = false
same_codes (x ∷ xs) (y ∷ ys) = (x == y) && same_codes xs ys

pub less_codes : List ℕ → List ℕ → Bool
less_codes [] [] = false
less_codes [] (y ∷ ys) = true
less_codes (x ∷ xs) [] = false
less_codes (x ∷ xs) (y ∷ ys) = ltb x y || ((x == y) && less_codes xs ys)

unfoldable pub same_name : String → String → Bool
unfolding same_codes
same_name a b = same_codes (codes a) (codes b)

unfoldable pub less_name : String → String → Bool
unfolding less_codes
less_name a b = less_codes (codes a) (codes b)

unfoldable pub has_name : String → List String → Bool
unfolding same_name
has_name s [] = false
has_name s (x ∷ xs) = same_name s x || has_name s xs

-- `sort.Strings`
unfoldable pub insert_name : String → List String → List String
unfolding less_name
insert_name x [] = x ∷ []
insert_name x (y ∷ ys) =
    let rest = insert_name x ys in if less_name y x then y ∷ rest else x ∷ y ∷ ys

unfoldable pub sort_names : List String → List String
unfolding insert_name
sort_names [] = []
sort_names (x ∷ xs) = insert_name x (sort_names xs)

-- `ossl_name_list`: the names, the copies of them, and the mark of an overflow.
pub record NameList : Type 0 where
  pub items : List String
  pub copies : List ℕ
  pub overflow : Bool

abbrev pub no_names : NameList
no_names = record { items = []; copies = []; overflow = false }

abbrev pub max_names : ℕ
max_names = 512

unfoldable pub strdup : Go ℕ
strdup w = (ok w.next, record w { live = bump w.live w.next; next = suc w.next })

-- `ossl_name_append(l, name)`
unfoldable pub name_append : NameList → Option String → Go NameList
unfolding has_name
name_append l none = pure l
name_append l (some name) =
    if leb max_names (length l.items)
    then pure (record l { overflow = true })
    else if has_name name l.items
    then pure l
    else (strdup >>= λ a.
        pure (record l { items = l.items ++ name ∷ []; copies = l.copies ++ a ∷ [] }))

-- The name that `get0_name` answers, or NULL.
abbrev pub name_of : Reply → Option String
name_of r = if eq_ℕ r.rc 0 then none else some r.text

-- `n` callbacks
unfoldable pub call_back : String → ℕ → NameList → Go NameList
unfolding name_append
call_back get_name zero l = pure l
call_back get_name (suc n) l = do
  r ← call get_name []
  l' ← name_append l (name_of r)
  call_back get_name n l'

-- `ossl_name_list_free`
abbrev pub free_names : NameList → World → World
free_names l w = release_all l.copies w

abbrev pub sorted_names : NameList → Go (List String)
sorted_names l = if l.overflow then fail (refused too_many_names) else pure (sort_names l.items)

-- `c.collect(run)`: `do_all` is the iterator that `run` calls, and `get_name` what its callback asks.
unfoldable pub collect : Context → String → String → Go (List String)
collect c do_all get_name = do
  r ← call do_all (context_ptr (some c) ∷ [])
  l ← call_back get_name r.len no_names
  deferred (free_names l) (sorted_names l)

-- `C.X_free(x)`, if there is one
abbrev pub release_if : String → Option ℕ → Go (Unit {0})
release_if f none w = (ok tt, w)
release_if f (some a) w = (ok tt, release f a w)

-- A fetch whose result only says whether it succeeded.
abbrev pub probe_fetch : Context → String → String → String → Arg → Go Bool
probe_fetch c fetch free name query = do
  o ← acquire fetch (context_ptr (some c) ∷ str name ∷ query ∷ [])
  release_if free o
  clear_errors
  pure (is_set o)

abbrev pub with_query : String → (Arg → Go Bool) → Go Bool
with_query propq body = if str_eq propq "" then body null else with_cstring propq (body (str propq))

-- `c.DigestAvailable(name, propq)` and `c.CipherAvailable(name, propq)` (ossl/provider.go)
unfoldable pub digest_available : Option Context → String → String → Go Bool
digest_available none name propq = pure false
digest_available (some c) name propq =
    with_cstring name (with_query propq (probe_fetch c "EVP_MD_fetch" "EVP_MD_free" name))

unfoldable pub cipher_available : Option Context → String → String → Go Bool
cipher_available none name propq = pure false
cipher_available (some c) name propq =
    with_cstring name (with_query propq (probe_fetch c "EVP_CIPHER_fetch" "EVP_CIPHER_free" name))

-- `c.KeyAlgorithmAvailable(algorithm)` (ossl/provider.go)
unfoldable pub key_algorithm_available : Option Context → String → Go Bool
key_algorithm_available none algorithm = pure false
key_algorithm_available (some c) algorithm =
    if str_eq algorithm ""
    then pure false
    else with_cstring algorithm
        (probe_fetch c "EVP_PKEY_CTX_new_from_name" "EVP_PKEY_CTX_free" algorithm null)

-- `for _, n := range names { if available(n) { out = append(out, n) } }`
unfoldable pub keep_available : (String → Go Bool) → List String → Go (List String)
keep_available test [] = pure []
keep_available test (n ∷ ns) = do
  b ← test n
  rest ← keep_available test ns
  pure (if b then n ∷ rest else rest)

unfoldable pub list_digests : Option Context → Go (List String)
list_digests none = fail closed
list_digests (some c) = do
  names ← collect c "EVP_MD_do_all_provided" "EVP_MD_get0_name"
  keep_available (λ n. digest_available (some c) n "") names

unfoldable pub list_ciphers : Option Context → Go (List String)
list_ciphers none = fail closed
list_ciphers (some c) = do
  names ← collect c "EVP_CIPHER_do_all_provided" "EVP_CIPHER_get0_name"
  keep_available (λ n. cipher_available (some c) n "") names

unfoldable pub list_macs : Option Context → Go (List String)
list_macs none = fail closed
list_macs (some c) = collect c "EVP_MAC_do_all_provided" "EVP_MAC_get0_name"

unfoldable pub list_kdfs : Option Context → Go (List String)
list_kdfs none = fail closed
list_kdfs (some c) = collect c "EVP_KDF_do_all_provided" "EVP_KDF_get0_name"

-- ===== src/Enumerate/Parse.antt =====
-- ossl/enumerate.go: names that come from outside, and what a digest or a cipher reports of itself.
use ossl_go.Prelude.{Bool, not, String, str_eq, List, [], ◌∷◌, Option, none, some, if◌then◌else◌}
use ossl_go.Prelude.Int.{ℤ, eq_ℕ}
use ossl_go.Errors.{
  closed, refused, digest_unavailable, cap_cipher_unavailable, name_unavailable, name_empty,
}
use ossl_go.Cgo.{
  Go, str, ptr, null, pure, fail, ◌>>=◌, ◌>>◌, call, with_cstring, clear_errors, using_or_else,
}
use ossl_go.Context.{Context, context_ptr}
use ossl_go.Enumerate.{
  digest_available, cipher_available, key_algorithm_available, list_macs, list_kdfs,
}

-- `if s == "" || !available { return "", fmt.Errorf(...) }; return s, nil`
abbrev parse_by : (String → Go Bool) → String → Go String
parse_by available s =
    if str_eq s ""
    then fail (refused name_unavailable)
    else (do b ← available s; if not b then fail (refused name_unavailable) else pure s)

unfoldable pub parse_digest_name : Option Context → String → Go String
parse_digest_name none s = fail closed
parse_digest_name (some c) s = parse_by (λ n. digest_available (some c) n "") s

unfoldable pub parse_cipher_name : Option Context → String → Go String
parse_cipher_name none s = fail closed
parse_cipher_name (some c) s = parse_by (λ n. cipher_available (some c) n "") s

unfoldable pub parse_key_algorithm : Option Context → String → Go String
parse_key_algorithm none s = fail closed
parse_key_algorithm (some c) s = parse_by (key_algorithm_available (some c)) s

-- `for _, n := range names { if n == s { return n, nil } }`
pub find_name : String → List String → Option String
find_name s [] = none
find_name s (n ∷ ns) = if str_eq n s then some n else find_name s ns

abbrev pub found_name : Option String → Go String
found_name none = fail (refused name_unavailable)
found_name (some n) = pure n

unfoldable pub parse_mac_name : Option Context → String → Go String
unfolding find_name
parse_mac_name none s = fail closed
parse_mac_name (some c) s =
    if str_eq s ""
    then fail (refused name_empty)
    else (do names ← list_macs (some c); found_name (find_name s names))

unfoldable pub parse_kdf_name : Option Context → String → Go String
unfolding find_name
parse_kdf_name none s = fail closed
parse_kdf_name (some c) s =
    if str_eq s ""
    then fail (refused name_empty)
    else (do names ← list_kdfs (some c); found_name (find_name s names))

-- `c.digestIsXOF(name)`
unfoldable pub digest_is_xof : Context → String → Go Bool
digest_is_xof c name = with_cstring name do
  using_or_else "EVP_MD_fetch" (context_ptr (some c) ∷ str name ∷ null ∷ [])
      (clear_errors >> fail (refused digest_unavailable)) "EVP_MD_free"
      λ md. do r ← call "EVP_MD_xof" (ptr md ∷ []); pure (not (eq_ℕ r.rc 0))

-- `c.cipherKeyLength(name)`
unfoldable pub cipher_key_length : Context → String → Go ℤ
cipher_key_length c name = with_cstring name do
  using_or_else "EVP_CIPHER_fetch" (context_ptr (some c) ∷ str name ∷ null ∷ [])
      (clear_errors >> fail (refused cap_cipher_unavailable)) "EVP_CIPHER_free"
      λ ci. do r ← call "EVP_CIPHER_get_key_length" (ptr ci ∷ []); pure r.rc

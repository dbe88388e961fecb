-- ===== src/Agree.antt =====
-- ossl/asym.go: key agreement, and the key that is derived from a shared secret.
pub mod Guarded
pub mod Tests
use ossl_go.Prelude.{
  ℕ, Bytes, Bool, true, false, not, ◌&&◌, String, str_eq, List, [], ◌∷◌, Option, none, some, ◌==◌,
  if◌then◌else◌, length,
}
use ossl_go.Prelude.Int.{ℤ, pos}
use ossl_go.Errors.{refused, type_mismatch, not_ec_cofactor, empty_secret}
use ossl_go.Cgo.{Go, num, ptr, pure, fail, ◌>>=◌, ◌>>◌, call_pos, new_error, refuse_if}
use ossl_go.Names.{utf8_bytes}
use ossl_go.Context.{default}
use ossl_go.Key.{Key, Pkey, pkey_of, when_open, key_type}
use ossl_go.Kdf.{hkdf}
use ossl_go.Asym.{key_operation, sized, reporting}

-- The options are the one flag `CofactorMode`, which a nil pointer leaves off.
abbrev pub is_on : Option Bool → Bool
is_on none = false
is_on (some cofactor_mode) = cofactor_mode

unfoldable pub set_cofactor : ℕ → Option Bool → Go (Unit {0})
set_cofactor ctx opts =
    if is_on opts
    then (do
      call_pos "EVP_PKEY_CTX_set_ecdh_cofactor_mode" (ptr ctx ∷ num (pos 1) ∷ [])
          "EVP_PKEY_CTX_set_ecdh_cofactor_mode"
      pure tt)
    else pure tt

-- `k.Derive(peer, opts)` after its tests of the keys.
unfoldable pub agree : Option Key → Pkey → Pkey → Option Bool → Go Bytes
agree k p q opts = key_operation k p λ ctx. do
  call_pos "EVP_PKEY_derive_init" (ptr ctx ∷ []) "EVP_PKEY_derive_init"
  set_cofactor ctx opts
  call_pos "EVP_PKEY_derive_set_peer" (ptr ctx ∷ ptr q.addr ∷ []) "EVP_PKEY_derive_set_peer"
  sized (reporting "EVP_PKEY_derive" (ptr ctx ∷ []) [])
      (new_error "EVP_PKEY_derive reported a zero-length shared secret")

unfoldable pub derive_secret : Option Key → Option Key → Option Bool → Go Bytes
derive_secret k peer opts = when_open (pkey_of k) λ p. when_open (pkey_of peer) λ q. do
  refuse_if (not (str_eq (key_type k) (key_type peer))) type_mismatch
  refuse_if (is_on opts && not (str_eq (key_type k) "EC")) not_ec_cofactor
  agree k p q opts

-- `DeriveSharedKey(secret, context, n)`
unfoldable pub derive_shared_key : Bytes → String → ℤ → Go Bytes
derive_shared_key secret context n =
    if length secret == 0
    then fail (refused empty_secret)
    else hkdf (some default) "SHA2-256" secret [] (utf8_bytes context) n

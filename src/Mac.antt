-- ===== src/Mac.antt =====
-- ossl/mac.go: message authentication codes. A MAC keeps three things of C: the algorithm, the context
-- and the arena of its parameters.
pub mod Stream
pub mod Kept
pub mod Owned
pub mod Compare
pub mod Tests
use ossl_go.Prelude.{
  ℕ, Bytes, Bool, true, false, not, ◌&&◌, String, str_append, str_eq, List, [], ◌∷◌, ◌++◌, Option,
  none, some, ◌==◌, if◌then◌else◌, length,
}
use ossl_go.Prelude.Int.{ℤ, pos, negsuc, is_nonpos, ltb_ℤ, eq_ℕ, to_nat}
use ossl_go.Errors.{
  Error, Result, ok, err, panic, closed, refused, mac_name_empty, mac_size_negative,
  mac_size_too_large, gmac_needs_iv,
}
use ossl_go.Cgo.{
  World, Go, Arg, num, bytes, ptr, null, str, params, pure, fail, abort, ◌>>=◌, ◌>>◌, attempt, call,
  call_one, deferred, release, acquire, using, with_cstring, clear_errors, new_error, refuse_if,
}
use ossl_go.Params
use ossl_go.Params.{Builder, new_params, utf8, octets, size_t, free, freed_builder, release_all}
use ossl_go.Context.{Context, context_ptr, default}
use ossl_go.SignOptions.{is_negative, is_set}
use ossl_go.Sign.{slice_to}
use ossl_go.Kdf.{max_output_length}
use ossl_go.Digest.{release_some}
use ossl_go.Fips.{on_error}

-- `p` is none once the MAC is closed.
pub record Mac : Type 0 where
  pub mac : Option ℕ
  pub ctx : Option ℕ
  pub key : Bytes
  pub p : Option Builder
  pub size : ℤ
  pub bs : ℤ
  pub latch : Option Error

-- `p.free()` of a builder, and the release of one object, in the course of a function.
unfoldable pub free_params : Builder → Go (Unit {0})
free_params p w = (ok tt, (free p w).1)

unfoldable pub release_now : String → ℕ → Go (Unit {0})
release_now f a w = (ok tt, release f a w)

abbrev pub key_arg : Bytes → Arg
key_arg [] = null
key_arg (x ∷ xs) = bytes (x ∷ xs)

-- `m.init()`, with the parameters that it leaves ended.
unfoldable pub init_mac : ℕ → Bytes → Builder → Go Builder
init_mac ctx key p = do
  p' ← Params.c p
  call_one "EVP_MAC_init" (ptr ctx ∷ key_arg key ∷ num (pos (length key)) ∷ params p'.list ∷ [])
      "EVP_MAC_init"
  pure p'

abbrev pub free_some_params : Option Builder → World → World
free_some_params none w = w
free_some_params (some p) w = (free p w).1

-- `m.Close()`: the context, the algorithm, the parameters, and the key.
unfoldable pub close_mac : Mac → Go Mac
close_mac m w = (
  ok (record m { mac = none; ctx = none; p = none; key = [] }),
  free_some_params m.p
      (release_some "EVP_MAC_free" m.mac (release_some "EVP_MAC_CTX_free" m.ctx w)),
)

-- The MAC that has been made, before its sizes are known.
abbrev pub keyed : ℕ → ℕ → Bytes → Builder → Mac
keyed mac ctx key p = record {
  mac = some mac;
  ctx = some ctx;
  key = key;
  p = some p;
  size = pos 0;
  bs = pos 0;
  latch = none;
}

-- What `newMAC` does with the algorithm, and with the context.
abbrev pub with_context : ℕ → Bytes → Builder → Option ℕ → Go Mac
with_context m key p none = do
  release_now "EVP_MAC_free" m
  free_params p
  new_error "EVP_MAC_CTX_new"
with_context m key p (some ctx) = do
  p' ← on_error (init_mac ctx key p) (close_mac (keyed m ctx key p))
  size ← call "EVP_MAC_CTX_get_mac_size" (ptr ctx ∷ [])
  bs ← call "EVP_MAC_CTX_get_block_size" (ptr ctx ∷ [])
  pure (record (keyed m ctx key p') { size = pos size.len; bs = pos bs.len })

abbrev pub with_algorithm : String → Bytes → Builder → Option ℕ → Go Mac
with_algorithm algorithm key p none = do
  free_params p
  new_error (str_append "EVP_MAC_fetch(" (str_append algorithm ")"))
with_algorithm algorithm key p (some m) =
    acquire "EVP_MAC_CTX_new" (ptr m ∷ []) >>= with_context m key p

-- `c.newMAC(algorithm, key, p)`
unfoldable pub make_mac : Option Context → String → Bytes → Builder → Go Mac
make_mac none algorithm key p = do free_params p; fail closed
make_mac (some c) algorithm key p = do
  clear_errors
  with_cstring algorithm (
      acquire "EVP_MAC_fetch" (context_ptr (some c) ∷ str algorithm ∷ null ∷ [])
      >>= with_algorithm algorithm key p)

pub record MacParams : Type 0 where
  pub digest : String
  pub cipher : String
  pub iv : Option Bytes
  pub custom : Bytes
  pub size : ℤ

abbrev pub octets_if_set : String → Option Bytes → Builder → Go Builder
octets_if_set k none p = pure p
octets_if_set k (some b) p = octets k b p

-- `p.build()`
unfoldable pub build_mac_params : Option MacParams → Go Builder
build_mac_params none = new_params
build_mac_params (some o) =
    new_params
    >>= (λ p. if not (str_eq o.digest "") then utf8 "digest" o.digest p else pure p)
    >>= (λ p. if not (str_eq o.cipher "") then utf8 "cipher" o.cipher p else pure p)
    >>= octets_if_set "iv" o.iv
    >>= (λ p. if not (length o.custom == 0) then octets "custom" o.custom p else pure p)
    >>= (λ p. if not (is_nonpos o.size) then size_t "size" o.size p else pure p)

-- `p.Size` of a pointer that may be nil, where nil passes every test
abbrev pub mac_size : Option MacParams → ℤ
mac_size none = pos 0
mac_size (some o) = o.size

unfoldable pub new_mac : Option Context → String → Bytes → Option MacParams → Go Mac
new_mac none algorithm key o = fail closed
new_mac (some c) algorithm key o = do
  refuse_if (str_eq algorithm "") mac_name_empty
  refuse_if (is_negative (mac_size o)) mac_size_negative
  refuse_if (ltb_ℤ (pos max_output_length) (mac_size o)) mac_size_too_large
  build_mac_params o >>= make_mac (some c) algorithm key

unfoldable pub new_gmac : Option Context → String → Bytes → Bytes → Go Mac
new_gmac c cipher key iv = do
  refuse_if (length iv == 0) gmac_needs_iv
  new_mac c "GMAC" key
      (some (record { digest = ""; cipher = cipher; iv = some iv; custom = []; size = pos 0 }))

unfoldable pub new_hmac : Option Context → String → Bytes → Go Mac
new_hmac c digest key = new_params >>= utf8 "digest" digest >>= make_mac c "HMAC" key

unfoldable pub new_cmac : Option Context → String → Bytes → Go Mac
new_cmac c cipher key = new_params >>= utf8 "cipher" cipher >>= make_mac c "CMAC" key

-- Any number of bits but 256 is KMAC-128, and the output length is not tested.
unfoldable pub new_kmac : Option Context → ℤ → Bytes → ℤ → Bytes → Go Mac
new_kmac c bits key out_len custom =
    new_params
    >>= size_t "size" out_len
    >>= (λ p. if not (length custom == 0) then octets "custom" custom p else pure p)
    >>= make_mac c (if eq_ℕ bits 256 then "KMAC-256" else "KMAC-128") key

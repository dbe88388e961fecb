-- ===== src/Store.antt =====
-- ossl/store.go: what is found at a URI. OSSL_STORE hands out one object after the other until it
-- says that the end is reached, so that both loops run on fuel here.
pub mod Rounds
pub mod Ends
pub mod Owned
pub mod Tests
use ossl_go.Prelude.{
  ℕ, zero, suc, Bool, true, false, String, str_append, str_eq, List, [], ◌∷◌, ◌++◌, Option, none,
  some, if◌then◌else◌,
}
use ossl_go.Prelude.Int.{ℤ, pos, eq_ℕ}
use ossl_go.Errors.{Result, ok, closed, refused, empty_uri, nothing_found}
use ossl_go.Cgo.{
  World, Go, Reply, num, str, ptr, null, pure, fail, abort, ◌>>=◌, ◌>>◌, call, call_one, acquire,
  release, with_cstring, clear_errors, using, new_error,
}
use ossl_go.Context.{Context, context_ptr}
use ossl_go.Key.{Key, Pkey, own}

-- OSSL_STORE_INFO_NAME, _PUBKEY, _PKEY and _CERT of <openssl/store.h>
abbrev info_name : ℕ
info_name = 1

abbrev pub info_pubkey : ℕ
info_pubkey = 3

abbrev pub info_pkey : ℕ
info_pkey = 4

abbrev info_cert : ℕ
info_cert = 5

-- `OSSL_STORE_INFO_get1_PKEY(info)` and `..._PUBKEY`: a new reference, or NULL.
abbrev some_pkey : Reply → Go (Option Pkey)
some_pkey r = own r >>= λ p. pure (some p)

abbrev pub get1 : String → ℕ → Go (Option Pkey)
get1 f info = do r ← call f (ptr info ∷ []); if eq_ℕ r.rc 0 then pure none else some_pkey r

-- `C.OSSL_STORE_INFO_free(info)`
unfoldable pub info_free : ℕ → Go (Unit {0})
unfolding release
info_free info w = (ok tt, release "OSSL_STORE_INFO_free" info w)

-- the key of a loaded object, which is freed
unfoldable pub key_of_info : ℕ → Go (Option Pkey)
unfolding info_free
key_of_info info = do
  r ← call "OSSL_STORE_INFO_get_type" (ptr info ∷ [])
  k ←
      if eq_ℕ r.rc info_pkey
      then get1 "OSSL_STORE_INFO_get1_PKEY" info
      else if eq_ℕ r.rc info_pubkey
      then get1 "OSSL_STORE_INFO_get1_PUBKEY" info
      else pure none
  info_free info
  pure k

-- One round of a loop: `stop` at the end of the store, and `one` for an object.
abbrev at_end {ℓ} : {A : Type ℓ} → ℕ → Go A → Go A → Go A
at_end sctx stop more = do
  r ← call "OSSL_STORE_eof" (ptr sctx ∷ [])
  if eq_ℕ r.rc 1 then stop else more

abbrev pub loaded {ℓ} : {A : Type ℓ} → ℕ → Go A → (ℕ → Go A) → Option ℕ → Go A
loaded sctx stop one none = at_end sctx stop (new_error "OSSL_STORE_load")
loaded sctx stop one (some info) = one info

unfoldable pub next_object {ℓ} : {A : Type ℓ} → ℕ → Go A → (ℕ → Go A) → Go A
next_object sctx stop one =
    at_end sctx stop (acquire "OSSL_STORE_load" (ptr sctx ∷ []) >>= loaded sctx stop one)

abbrev pub found_or : Go (Option Pkey) → Option Pkey → Go (Option Pkey)
found_or rest none = rest
found_or rest (some p) = pure (some p)

-- The loop of `loadKey`: the first key, or none at the end.
unfoldable pub first_key : ℕ → ℕ → Go (Option Pkey)
unfolding next_object
first_key zero sctx = abort "out of fuel"
first_key (suc n) sctx =
    next_object sctx (pure none) λ info. key_of_info info >>= found_or (first_key n sctx)

abbrev pub as_key : Context → Option Pkey → Go Key
as_key c none = fail (refused nothing_found)
as_key c (some p) = pure (record { pkey = some p; ctx = some c })

-- Opening a store, and what is done with it.
abbrev pub with_store {ℓ} : {A : Type ℓ} → Context → String → (ℕ → Go A) → Go A
with_store c uri body =
    clear_errors
    >> with_cstring uri do
      using "OSSL_STORE_open_ex"
          (str uri ∷ context_ptr (some c) ∷ null ∷ null ∷ null ∷ null ∷ null ∷ null ∷ [])
          (str_append "OSSL_STORE_open_ex(" (str_append uri ")")) "OSSL_STORE_close" body

-- `c.loadKey(uri, expect, what)`
unfoldable pub load_typed : ℕ → Option Context → String → ℕ → Go Key
load_typed fuel none uri expect = fail closed
load_typed fuel (some c) uri expect =
    if str_eq uri ""
    then fail (refused empty_uri)
    else with_store c uri λ sctx. do
      call_one "OSSL_STORE_expect" (ptr sctx ∷ num (pos expect) ∷ []) "OSSL_STORE_expect"
      o ← first_key fuel sctx
      as_key c o

-- `c.LoadKey(uri)` and `c.LoadPublicKey(uri)`
unfoldable pub load_key : ℕ → Option Context → String → Go Key
unfolding load_typed
load_key fuel c uri = load_typed fuel c uri info_pkey

unfoldable load_public_key : ℕ → Option Context → String → Go Key
unfolding load_typed
load_public_key fuel c uri = load_typed fuel c uri info_pubkey

pub data StoreObjectType : Type 0 where
  store_unknown store_private_key store_public_key store_certificate : StoreObjectType

pub record StoreObject : Type 0 where
  pub kind : StoreObjectType
  pub name : String

-- `t.String()`
abbrev type_string : StoreObjectType → String
type_string store_private_key = "private key"
type_string store_public_key = "public key"
type_string store_certificate = "certificate"
type_string store_unknown = "unknown"

abbrev pub unnamed : StoreObjectType → Go StoreObject
unnamed k = pure (record { kind = k; name = "" })

abbrev pub named : ℕ → Go StoreObject
named info = do
  r ← call "OSSL_STORE_INFO_get0_NAME" (ptr info ∷ [])
  pure (record { kind = store_unknown; name = r.text })

-- the entry of a loaded object, which is freed
unfoldable pub object_of_info : ℕ → Go StoreObject
unfolding info_free
object_of_info info = do
  r ← call "OSSL_STORE_INFO_get_type" (ptr info ∷ [])
  obj ←
      if eq_ℕ r.rc info_pkey
      then unnamed store_private_key
      else if eq_ℕ r.rc info_pubkey
      then unnamed store_public_key
      else if eq_ℕ r.rc info_cert
      then unnamed store_certificate
      else if eq_ℕ r.rc info_name
      then named info
      else unnamed store_unknown
  info_free info
  pure obj

-- The loop of `ListStore`, with what it has collected.
unfoldable pub all_objects : ℕ → ℕ → List StoreObject → Go (List StoreObject)
unfolding next_object
all_objects zero sctx out = abort "out of fuel"
all_objects (suc n) sctx out =
    next_object sctx (pure out)
      λ info. object_of_info info >>= λ obj. all_objects n sctx (out ++ obj ∷ [])

-- `c.ListStore(uri)`
unfoldable pub list_store : ℕ → Option Context → String → Go (List StoreObject)
list_store fuel none uri = fail closed
list_store fuel (some c) uri =
    if str_eq uri ""
    then fail (refused empty_uri)
    else with_store c uri λ sctx. all_objects fuel sctx []

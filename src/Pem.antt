-- ===== src/Pem.antt =====
-- ossl/pkey_pem.go: keys as bytes, in the encodings that a peer or a storage format asks for.
pub mod Owned
pub mod Exports
pub mod Tests
use ossl_go.Prelude.{
  ℕ, suc, Bytes, Bool, true, false, not, String, str_append, str_eq, List, [], ◌∷◌, Option, none,
  some, ◌==◌, length, if◌then◌else◌,
}
use ossl_go.Prelude.Int.{ℤ, pos, negsuc, c_int, eq_ℕ}
use ossl_go.Errors.{
  Result, ok, closed, refused, not_ec_key, not_rsa_key, empty_key_input, empty_raw_input,
}
use ossl_go.Cgo.{
  World, Go, Arg, Reply, num, bytes, str, ptr, null, pure, fail, abort, ◌>>=◌, ◌>>◌, call, call_one,
  using, deferred, release, with_block, with_cstring, clear_errors, new_error, refuse_if, bump,
  written,
}
use ossl_go.Context.{Context, context_ptr}
use ossl_go.Key.{Key, Pkey, pkey_of, when_open, key_type, key_context, own}
use ossl_go.Sign.{slice_to}

-- EVP_PKEY_PUBLIC_KEY and EVP_PKEY_KEYPAIR of <openssl/evp.h>
abbrev pub public_key : ℕ
public_key = 0x86

abbrev keypair : ℕ
keypair = 0x87

abbrev struct_pkcs8 : String
struct_pkcs8 = "PrivateKeyInfo"

abbrev struct_sec1 : String
struct_sec1 = "type-specific"

abbrev pub struct_spki : String
struct_spki = "SubjectPublicKeyInfo"

-- `C.GoBytes(p, n)` of a block of `size` bytes
abbrev pub go_bytes : ℤ → ℕ → Bytes → Go Bytes
go_bytes (pos n) size out = pure (written size out n)
go_bytes (negsuc n) size out = abort "gobytes: length out of range"

-- The block that `OSSL_ENCODER_to_data` allocated for its answer, with its `defer C.ossl_free`.
abbrev pub take_data : Reply → Go Bytes
take_data r = with_block "OPENSSL_free" (go_bytes (c_int r.len) r.len r.out)

-- `k.encode(selection, outType, structure)`
unfoldable pub encode : Option Key → ℕ → String → String → Go Bytes
encode k selection out_type structure = when_open (pkey_of k) λ p.
    clear_errors
    >> with_cstring out_type do
      with_cstring structure do
        using "OSSL_ENCODER_CTX_new_for_pkey"
            (ptr p.addr ∷ num (pos selection) ∷ str out_type ∷ str structure ∷ null ∷ [])
            (str_append "OSSL_ENCODER_CTX_new_for_pkey(" (str_append structure ")"))
            "OSSL_ENCODER_CTX_free"
            λ ctx.
              call_one "OSSL_ENCODER_to_data" (ptr ctx ∷ [])
                (str_append "OSSL_ENCODER_to_data(" (str_append structure ")"))
              >>= take_data

-- `k.MarshalPKCS8()`, `k.MarshalPKCS8PEM()`, `k.MarshalSPKI()`, `k.MarshalSPKIPEM()`
abbrev pub marshal_pkcs8 : Option Key → Go Bytes
marshal_pkcs8 k = encode k keypair "DER" struct_pkcs8

abbrev marshal_pkcs8_pem : Option Key → Go Bytes
marshal_pkcs8_pem k = encode k keypair "PEM" struct_pkcs8

abbrev pub marshal_spki : Option Key → Go Bytes
marshal_spki k = encode k public_key "DER" struct_spki

abbrev pub marshal_spki_pem : Option Key → Go Bytes
marshal_spki_pem k = encode k public_key "PEM" struct_spki

-- `k.MarshalSEC1()`, `k.MarshalSEC1PEM()`, `k.MarshalPKCS1()`, `k.MarshalPKCS1PEM()`
abbrev pub marshal_sec1 : Option Key → Go Bytes
marshal_sec1 k =
    refuse_if (not (str_eq (key_type k) "EC")) not_ec_key >> encode k keypair "DER" struct_sec1

abbrev marshal_sec1_pem : Option Key → Go Bytes
marshal_sec1_pem k =
    refuse_if (not (str_eq (key_type k) "EC")) not_ec_key >> encode k keypair "PEM" struct_sec1

abbrev marshal_pkcs1 : Option Key → Go Bytes
marshal_pkcs1 k =
    refuse_if (not (str_eq (key_type k) "RSA")) not_rsa_key >> encode k keypair "DER" struct_sec1

abbrev marshal_pkcs1_pem : Option Key → Go Bytes
marshal_pkcs1_pem k =
    refuse_if (not (str_eq (key_type k) "RSA")) not_rsa_key >> encode k keypair "PEM" struct_sec1

-- The two calls of `MarshalRawPrivateKey` and `MarshalRawPublicKey`.
unfoldable pub marshal_raw : String → Option Key → Go Bytes
marshal_raw f k = when_open (pkey_of k) λ p. do
  clear_errors
  r ←
      call_one f (ptr p.addr ∷ null ∷ [])
        (str_append f (str_append ": no raw encoding for " (key_type k)))
  if r.len == 0
      then pure []
      else call_one f (ptr p.addr ∷ num (pos r.len) ∷ []) f >>= slice_to r.len

abbrev marshal_raw_private_key : Option Key → Go Bytes
marshal_raw_private_key k = marshal_raw "EVP_PKEY_get_raw_private_key" k

abbrev pub marshal_raw_public_key : Option Key → Go Bytes
marshal_raw_public_key k = marshal_raw "EVP_PKEY_get_raw_public_key" k

abbrev pub with_keytype {ℓ} : {A : Type ℓ} → String → (Arg → Go A) → Go A
with_keytype keytype body =
    if str_eq keytype "" then body null else with_cstring keytype (body (str keytype))

abbrev pub made_key : Context → Reply → Go Key
made_key c r = own r >>= λ p. pure (record { pkey = some p; ctx = some c })

-- `C.CBytes(in)` with its `defer C.free`, around the decoder.
abbrev pub from_data : Context → Bytes → String → ℕ → Go Key
from_data c input structure dctx = with_block "free" (
    call_one "OSSL_DECODER_from_data" (ptr dctx ∷ bytes input ∷ num (pos (length input)) ∷ [])
      (str_append "OSSL_DECODER_from_data(" (str_append structure ")"))
    >>= made_key c)

abbrev pub decoded : Context → Bytes → String → String → ℕ → Arg → Go Key
decoded c input in_type structure selection kt =
    using "OSSL_DECODER_CTX_new_for_pkey"
      (str in_type ∷ str structure ∷ kt ∷ num (pos selection) ∷ context_ptr (some c) ∷ null ∷ [])
      (str_append "OSSL_DECODER_CTX_new_for_pkey(" (str_append structure ")"))
      "OSSL_DECODER_CTX_free" (from_data c input structure)

-- `decodeKey(ctx, in, inType, structure, keytype, selection)`. Where libcrypto answers 1, it has put a
-- reference on a key into `pkey`.
unfoldable pub decode_key : Option Context → Bytes → String → String → String → ℕ → Go Key
decode_key none input in_type structure keytype selection = fail closed
decode_key (some c) input in_type structure keytype selection =
    if length input == 0
    then fail (refused empty_key_input)
    else (clear_errors
        >> with_cstring in_type do
          with_cstring structure
              do with_keytype keytype (decoded c input in_type structure selection))

-- The parsers of one encoding, each by its DER and its PEM form.
abbrev parse_pkcs8_private_key : Option Context → Bytes → Go Key
parse_pkcs8_private_key c der = decode_key c der "DER" struct_pkcs8 "" keypair

abbrev parse_pkcs8_private_key_pem : Option Context → Bytes → Go Key
parse_pkcs8_private_key_pem c pem = decode_key c pem "PEM" struct_pkcs8 "" keypair

abbrev parse_pkcs1_private_key : Option Context → Bytes → Go Key
parse_pkcs1_private_key c der = decode_key c der "DER" struct_sec1 "RSA" keypair

abbrev parse_pkcs1_private_key_pem : Option Context → Bytes → Go Key
parse_pkcs1_private_key_pem c pem = decode_key c pem "PEM" struct_sec1 "RSA" keypair

abbrev parse_sec1_private_key : Option Context → Bytes → Go Key
parse_sec1_private_key c der = decode_key c der "DER" struct_sec1 "EC" keypair

abbrev parse_sec1_private_key_pem : Option Context → Bytes → Go Key
parse_sec1_private_key_pem c pem = decode_key c pem "PEM" struct_sec1 "EC" keypair

abbrev parse_spki_public_key : Option Context → Bytes → Go Key
parse_spki_public_key c der = decode_key c der "DER" struct_spki "" public_key

abbrev parse_spki_public_key_pem : Option Context → Bytes → Go Key
parse_spki_public_key_pem c pem = decode_key c pem "PEM" struct_spki "" public_key

-- The common shape of `ParseRawPrivateKey` and `ParseRawPublicKey`.
unfoldable pub parse_raw : String → Option Context → String → Bytes → Go Key
parse_raw f none algorithm raw = fail closed
parse_raw f (some c) algorithm raw =
    if length raw == 0
    then fail (refused empty_raw_input)
    else (clear_errors
        >> with_cstring algorithm do
          r ← call f (
              context_ptr (some c) ∷ str algorithm ∷ null ∷ bytes raw ∷ num (pos (length raw)) ∷ [])
          if eq_ℕ r.rc 0
              then new_error (str_append f (str_append "(" (str_append algorithm ")")))
              else made_key c r)

abbrev parse_raw_private_key : Option Context → String → Bytes → Go Key
parse_raw_private_key c algorithm raw = parse_raw "EVP_PKEY_new_raw_private_key_ex" c algorithm raw

abbrev parse_raw_public_key : Option Context → String → Bytes → Go Key
parse_raw_public_key c algorithm raw = parse_raw "EVP_PKEY_new_raw_public_key_ex" c algorithm raw

abbrev pub public_bytes : Option Key → Go Key
public_bytes k = marshal_spki k >>= parse_spki_public_key (some (key_context k))

-- `k.Public()`
unfoldable pub public : Option Key → Go Key
public k = when_open (pkey_of k) λ p. public_bytes k

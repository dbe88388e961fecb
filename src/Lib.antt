-- ===== src/Lib.antt =====
-- ossl-go, package ossl: a Go binding of OpenSSL's libcrypto.
--
-- The package turns each family of EVP calls into Go values and errors. libcrypto is not part of the
-- repository: Cgo.antt makes its answers a parameter, the field `lib` of the world, which is any
-- function of the calls made so far. A theorem holds for every such function, unless it names a
-- condition on it. What the package itself decides is translated: guards, early returns, the order of
-- calls, what is released by `defer`, the reading of the answers, the error queue, and the encodings
-- and paddings done in Go.
--
-- A Go function is a value of `Go A`, from a world to a result and a world; a result is a value, an
-- error or a panic. A receiver is an `Option`, none for the nil pointer, and a method that
-- changes its receiver returns the new one. The message of an error is a constructor of `Refusal`.
--
--   Prelude.antt      shared names, Boolean tests, lists and slices, Go's signed integers
--   Errors.antt       errors and results (ossl/errors_common.go)
--   Cgo.antt          the world, C calls, `defer`, C strings, newError (ossl/errors.go); below it the
--                     rules for the balance of references (Balance, Owns, Drops, and Uses over the
--                     lists of Refs), the calls made (Trace, Only), what they were answered
--                     (Confirms) and in which order (Ordered), values and errors (Returns, Fails, Fine), and what an error tells
--                     (Blind)
--   Params.antt       the OSSL_PARAM builder and its arena (ossl/params.go)
--   Context.antt      the library context (ossl/libctx.go)
--   Names.antt        property queries and prefixes of names (ossl/names.go)
--   Kdf.antt          HKDF, PBKDF2, Argon2 and DeriveKDF (ossl/kdf.go)
--   Key.antt          keys and their generation (ossl/pkey.go)
--   SignOptions.antt  checkSignOptions, applySignOptions and what they call (ossl/sign.go); the table of
--                     the options by family is in SignOptions/Families.antt
--   Ecdsa.antt        derToP1363, p1363ToDER (ossl/sign.go), with the part of encoding/asn1 they use
--   Sign.antt         Sign, Verify (ossl/sign.go), SignDigest, VerifyDigest (ossl/sign_digest.go)
--   Aead.antt         NewAEAD, SealErr, Seal, Open, Close (ossl/cipher.go)
--   Signer.antt       NewSigner, NewVerifier and their methods (ossl/signer.go)
--   Secure.antt       the secure heap and its buffers (ossl/secure.go)
--   Provider.antt     LoadProvider, Unload, ProviderAvailable, Providers (ossl/provider.go)
--   Fips.antt         EnableFIPS, NewFIPSContext, SelfTest (ossl/fips.go), Close (ossl/libctx.go)
--   Digest.antt       Hash, its methods, Digest and DigestXOF (ossl/digest.go)
--   Version.antt      AtLeast (ossl/ossl.go)
--   Asym.antt         RSA encryption and decryption, OAEP and PKCS #1 v1.5 (ossl/asym.go)
--   Kem.antt          Encapsulate, Decapsulate (ossl/asym.go)
--   Agree.antt        Derive, DeriveSharedKey (ossl/asym.go)
--   Mac.antt          MAC, its constructors and methods, HMACSum, EqualMAC (ossl/mac.go)
--   Enumerate.antt    the lists of algorithms, the parsing of names (ossl/enumerate.go) and the tests for
--                     one algorithm (ossl/provider.go)
--   Store.antt        LoadKey, LoadPublicKey, ListStore (ossl/store.go). The loops run on fuel; that it is
--                     enough, and that they end, is a result below
--   Capability.antt   Supports, VerifyCapability, the memo of probes (ossl/capability.go)
--   Pem.antt          the exports and imports of keys, and Public (ossl/pkey_pem.go)
--   Padding.antt      applyPadding and removePadding (ossl/cipher_sym.go)
--   Cipher.antt       NewCipher, Encrypt, Decrypt, Close (ossl/cipher_sym.go)
--   KeyWrap.antt      NewKeyWrap, Wrap, Unwrap, Close (ossl/cipher_sym.go)
--   Samples.antt      a concrete libcrypto, world and keys for the tests
--
-- Loops are structural recursion, on a list or on an index. Fuel is used twice: the 8 octets of the
-- length of a DER element, which hold every Go `int`, and the rounds of the two loops over a key
-- store, which end where the store does (Store/Ends.antt). A Go `int` is unbounded where the source only
-- compares it; a conversion to a C integer or to uint wraps by its modulus. Addresses are numbers
-- that are never reused.
--
-- What libcrypto reports as a length is a natural number, so a negative answer to a call that
-- returns a length, such as EVP_CIPHER_get_iv_length, is not represented. A panic of the allocator while
-- parameters are built leaves the arena as it is, where a deferred free of the source would release it; the
-- balance of references is stated of the runs that return.
--
-- Not modelled: locks and goroutines, the overwriting of secrets in Go memory, timing, the texts of
-- errors, and the answers of libcrypto.
pub mod Prelude
pub mod Errors
pub mod Padding
pub mod Cgo
pub mod Params
pub mod Context
pub mod Kdf
pub mod Names
pub mod Key
pub mod SignOptions
pub mod Ecdsa
pub mod Sign
pub mod Signer
pub mod Store
pub mod Pem
pub mod Capability
pub mod Cipher
pub mod KeyWrap
pub mod Provider
pub mod Fips
pub mod Version
pub mod Asym
pub mod Enumerate
pub mod Mac
pub mod Kem
pub mod Agree
pub mod Digest
pub mod Secure
pub mod Aead
pub mod Samples

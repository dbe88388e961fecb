-- ===== src/Capability/Trial.antt =====
-- `VerifyCapability` of ossl/capability.go: the operation itself, on material that is made for it.
use ossl_go.Prelude.{
  Bytes, not, String, str_eq, List, [], ◌∷◌, Option, none, some, if◌then◌else◌, replicate,
}
use ossl_go.Errors.{Result, err, closed, refused, wrapped, cap_nil, cap_round_trip}
use ossl_go.Cgo.{Go, pure, ◌>>=◌, attempt, deferred, refuse_if}
use ossl_go.Names.{utf8_bytes}
use ossl_go.Context.{Context}
use ossl_go.Key.{KeyOption, group, generate_key, close_key}
use ossl_go.Sign.{sign, verify}
use ossl_go.Cipher.{new_cipher, encrypt, decrypt, close_cipher}
use ossl_go.Aead.{new_aead, seal_err, open_aead, close_aead}
use ossl_go.Enumerate.{same_codes}
use ossl_go.Capability.{
  SignatureCapability, AeadCapability, CipherCapability, Capability, signature, aead, cipher,
  Prober, Checked, go_on, capability_options,
}
use ossl_go.Capability.Check.{key_len, zeros, aead_options, cipher_options, check, with_prober}

abbrev pub probe_text : Bytes
probe_text = utf8_bytes "ossl capability probe"

abbrev pub key_group : String → List KeyOption
key_group curve = if str_eq curve "" then [] else group curve ∷ []

-- `s.trial(c)`
unfoldable pub try_signature : Context → SignatureCapability → Go (Unit {0})
try_signature c s = do
  k ← generate_key (some c) s.key (key_group s.curve)
  deferred (λ w. (close_key k w).1)
      do
        sig ← sign (some k) probe_text (some (capability_options s))
        verify (some k) probe_text sig (some (capability_options s))

-- `a.trial(c)`
unfoldable pub try_aead : Context → AeadCapability → Go (Unit {0})
try_aead c a = do
  n ← key_len c a.key_bytes a.cipher
  key ← zeros n
  x ← new_aead (some c) a.cipher key (aead_options a)
  deferred (λ w. (close_aead x w).1)
      do
        nonce ← zeros x.nonce
        ct ← seal_err (some x) [] nonce probe_text (utf8_bytes "probe-aad")
        got ← open_aead (some x) [] nonce ct (utf8_bytes "probe-aad")
        refuse_if (not (same_codes got probe_text)) cap_round_trip

-- `x.trial(c)`
unfoldable pub try_cipher : Context → CipherCapability → Go (Unit {0})
try_cipher c x = do
  n ← key_len c x.key_bytes x.cipher
  key ← zeros n
  cph ← new_cipher (some c) x.cipher key (cipher_options x)
  deferred (λ w. (close_cipher cph w).1)
      do
        iv ← zeros cph.iv_len
        ct ← encrypt (some cph) [] iv (replicate cph.block_size 0x2a)
        got ← decrypt (some cph) [] iv ct
        refuse_if (not (same_codes got (replicate cph.block_size 0x2a))) cap_round_trip

unfoldable pub trial : Context → Capability → Go (Unit {0})
trial c (signature s) = try_signature c s
trial c (aead a) = try_aead c a
trial c (cipher x) = try_cipher c x

abbrev pub in_practice : Prober → Result (Unit {0}) → Checked
in_practice st (err e) = (st, err (wrapped e))
in_practice st r = (st, r)

-- `c.VerifyCapability(cap)`
unfoldable pub verify_capability :
    Option Prober → Option Capability → Go (Option Prober × Result (Unit {0}))
verify_capability none x = pure (none, err closed)
verify_capability (some st) none = pure (some st, err (refused cap_nil))
verify_capability (some st) (some x) = do
  q ← check st x
  r ← go_on q.0 q.1 (attempt (trial q.0.ctx x) >>= λ r. pure (in_practice q.0 r))
  pure (with_prober r)

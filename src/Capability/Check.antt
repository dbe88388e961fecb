-- ===== src/Capability/Check.antt =====
-- The checks of the capabilities, and Supports (ossl/capability.go).
use ossl_go.Prelude.{
  Bytes, Bool, true, false, not, ◌&&◌, String, str_eq, List, [], ◌∷◌, ◌++◌, Option, none, some,
  if◌then◌else◌, replicate,
}
use ossl_go.Prelude.Int.{ℤ, pos, negsuc, is_nonpos}
use ossl_go.Errors.{
  Result, ok, err, refused, wrapped, closed, cap_nil, cap_key, cap_key_unavailable,
  cap_curve_not_ec, cap_ec_curve, cap_curve_not_built, cap_digest_internal, cap_digest_xof,
  cap_cipher, cap_cipher_unavailable, digest_unavailable,
}
use ossl_go.Cgo.{Go, pure, fail, abort, lift, ◌>>=◌, ◌>>◌, attempt, refuse_if}
use ossl_go.Context.{Context}
use ossl_go.SignOptions.{check_sign_options}
use ossl_go.Cipher.{CipherOption, with_padding, with_cipher_iv_size, new_cipher, close_cipher}
use ossl_go.Aead.{AeadOption, with_iv_size, with_tag_size, new_aead, close_aead}
use ossl_go.Enumerate.{key_algorithm_available, digest_available, cipher_available}
use ossl_go.Enumerate.Parse.{digest_is_xof, cipher_key_length}
use ossl_go.Capability.{
  SignatureCapability, AeadCapability, CipherCapability, Capability, signature, aead, cipher,
  Prober, Checked, go_on, try, curve_usable, curve_supported, hashes_internally, capability_options,
}

-- The rules on the key and the curve, up to `curveSupported`.
unfoldable pub check_key : Context → SignatureCapability → Go (Unit {0})
check_key c s = do
  refuse_if (str_eq s.key "") cap_key
  there ← key_algorithm_available (some c) s.key
  refuse_if (not there) cap_key_unavailable
  refuse_if (not (str_eq s.curve "") && not (str_eq s.key "EC")) cap_curve_not_ec
  refuse_if (str_eq s.key "EC" && str_eq s.curve "") cap_ec_curve

abbrev pub as_unusable : Checked → Checked
as_unusable (st, err e) = (st, err (wrapped e))
as_unusable x = x

abbrev pub usable_curve : Prober × Bool → String → Go Checked
usable_curve (st, false) curve = pure (st, err (refused cap_curve_not_built))
usable_curve (st, true) curve = curve_usable st curve >>= λ x. pure (as_unusable x)

unfoldable pub check_curve : Prober → String → Go Checked
check_curve st curve =
    if str_eq curve ""
    then pure (st, ok tt)
    else curve_supported st curve >>= λ q. usable_curve q curve

-- The rules on the digest.
unfoldable pub check_digest : Context → SignatureCapability → Go (Unit {0})
check_digest c s =
    if hashes_internally s.key && not (str_eq s.digest "")
    then fail (refused cap_digest_internal)
    else if not (hashes_internally s.key) && str_eq s.digest ""
    then pure tt
    else if not (str_eq s.digest "")
    then (do
      there ← digest_available (some c) s.digest ""
      refuse_if (not there) digest_unavailable
      xof ← digest_is_xof c s.digest
      refuse_if xof cap_digest_xof)
    else pure tt

-- `s.check(c)` of a SignatureCapability
unfoldable pub check_signature : Prober → SignatureCapability → Go Checked
check_signature st s = do
  r ← attempt (check_key st.ctx s)
  go_on st r do
    q ← check_curve st s.curve
    go_on q.0 q.1
        (try q.0 (check_digest q.0.ctx s >> lift (check_sign_options s.key (capability_options s))))

-- `make([]byte, n)`
abbrev pub zeros : ℤ → Go Bytes
zeros (pos n) = pure (replicate n 0)
zeros (negsuc n) = abort "makeslice: len out of range"

abbrev or_32 : Result ℤ → ℤ
or_32 (ok n) = n
or_32 _ = pos 32

-- `a.keyLen(c)` and `x.keyLen(c)`
unfoldable pub key_len : Context → ℤ → String → Go ℤ
key_len c key_bytes name =
    if is_nonpos key_bytes
    then (attempt (cipher_key_length c name) >>= λ r. pure (or_32 r))
    else pure key_bytes

abbrev if_positive {ℓ} : {A : Type ℓ} → ℤ → (ℤ → A) → List A
if_positive n f = if is_nonpos n then [] else f n ∷ []

abbrev pub aead_options : AeadCapability → List AeadOption
aead_options a = if_positive a.iv_bytes with_iv_size ++ if_positive a.tag_bytes with_tag_size

-- `a.check(c)` of an AEADCapability
unfoldable pub check_aead : Context → AeadCapability → Go (Unit {0})
check_aead c a = do
  refuse_if (str_eq a.cipher "") cap_cipher
  there ← cipher_available (some c) a.cipher ""
  refuse_if (not there) cap_cipher_unavailable
  n ← key_len c a.key_bytes a.cipher
  key ← zeros n
  x ← new_aead (some c) a.cipher key (aead_options a)
  close_aead x
  pure tt

abbrev pub cipher_options : CipherCapability → List CipherOption
cipher_options x = with_padding x.padding ∷ if_positive x.iv_bytes with_cipher_iv_size

-- `x.check(c)` of a CipherCapability
unfoldable pub check_cipher : Context → CipherCapability → Go (Unit {0})
check_cipher c x = do
  refuse_if (str_eq x.cipher "") cap_cipher
  there ← cipher_available (some c) x.cipher ""
  refuse_if (not there) cap_cipher_unavailable
  n ← key_len c x.key_bytes x.cipher
  key ← zeros n
  cph ← new_cipher (some c) x.cipher key (cipher_options x)
  close_cipher cph
  pure tt

unfoldable pub check : Prober → Capability → Go Checked
check st (signature s) = check_signature st s
check st (aead a) = try st (check_aead st.ctx a)
check st (cipher x) = try st (check_cipher st.ctx x)

-- `c.Supports(cap)`; none is the nil context, or the nil capability.
abbrev pub with_prober : Checked → Option Prober × Result (Unit {0})
with_prober (st, r) = (some st, r)

unfoldable supports : Option Prober → Option Capability → Go (Option Prober × Result (Unit {0}))
supports none x = pure (none, err closed)
supports (some st) none = pure (some st, err (refused cap_nil))
supports (some st) (some x) = check st x >>= λ r. pure (with_prober r)

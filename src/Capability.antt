-- ===== src/Capability.antt =====
-- ossl/capability.go: whether a context can do what a caller wants to do. A check may settle a
-- question by trying; what it learned stays in the memo of the context, also where it ends in an error.
pub mod Check
pub mod Trial
pub mod Memo
pub mod Predicts
pub mod Tests
use ossl_go.Prelude.{
  ℕ, Bytes, Bool, true, false, not, ◌&&◌, ◌||◌, String, str_append, str_eq, List, [], ◌∷◌, ◌++◌,
  Option, none, some, ltb, ◌==◌, if◌then◌else◌, replicate, take,
}
use ossl_go.Prelude.Int.{ℤ, pos, negsuc, eq_ℕ, is_nonpos}
use ossl_go.Errors.{
  Result, ok, err, panic, Error, Refusal, refused, wrapped, closed, cap_nil, cap_key,
  cap_key_unavailable, cap_curve_not_ec, cap_ec_curve, cap_curve_not_built, cap_digest_internal,
  cap_digest_xof, cap_cipher, cap_cipher_unavailable, digest_unavailable,
}
use ossl_go.Cgo.{
  Go, num, str, null, pure, fail, abort, lift, ◌>>=◌, ◌>>◌, call, attempt, clear_errors,
  with_cstring, refuse_if, written,
}
use ossl_go.Names.{upper_has_prefix, utf8_bytes}
use ossl_go.Context.{Context}
use ossl_go.Key.{group, generate_key, close_key}
use ossl_go.SignOptions.{SignOptions, SignatureFormat, zero_options, check_sign_options}
use ossl_go.Padding.{PaddingScheme}
use ossl_go.Cipher.{CipherOption, with_padding, with_cipher_iv_size, new_cipher, close_cipher}
use ossl_go.Aead.{AeadOption, with_iv_size, with_tag_size, new_aead, close_aead}
use ossl_go.Enumerate.{key_algorithm_available, digest_available, cipher_available}
use ossl_go.Enumerate.Curves.{curve_nid, read_curves}
use ossl_go.Enumerate.Parse.{digest_is_xof, cipher_key_length}

pub record SignatureCapability : Type 0 where
  pub key : String
  pub curve : String
  pub digest : String
  pub format : SignatureFormat
  pub prehash : Bool
  pub deterministic : Bool
  pub context : Bool

pub record AeadCapability : Type 0 where
  pub cipher : String
  pub key_bytes : ℤ
  pub iv_bytes : ℤ
  pub tag_bytes : ℤ

pub record CipherCapability : Type 0 where
  pub cipher : String
  pub key_bytes : ℤ
  pub iv_bytes : ℤ
  pub padding : PaddingScheme

-- What implements the interface `Capability`.
pub data Capability : Type 0 where
  signature : SignatureCapability → Capability
  aead : AeadCapability → Capability
  cipher : CipherCapability → Capability

-- The context, whose memo a check may extend, and the package's table of built-in curves, once it is read.
pub record Prober : Type 0 where
  pub ctx : Context
  pub curves : Option Bytes

-- A prober, and the `error` that a method returned: `ok tt` is nil.
abbrev pub Checked : Type 0
Checked = Prober × Result (Unit {0})

abbrev pub go_on : Prober → Result (Unit {0}) → Go Checked → Go Checked
go_on st (ok u) next = next
go_on st (err e) next = pure (st, err e)
go_on st (panic s) next = abort s

abbrev pub try : Prober → Go (Unit {0}) → Go Checked
try st m = attempt m >>= λ r. pure (st, r)

-- `c.probes[key]`
pub recall : String → List (String × Option Error) → Option (Option Error)
recall key [] = none
recall key ((k, e) ∷ rest) = if str_eq key k then some e else recall key rest

abbrev pub as_result : Option Error → Result (Unit {0})
as_result none = ok tt
as_result (some e) = err e

abbrev pub learn : Context → String → Option Error → Context
learn c key e = record c { probes = (key, e) ∷ c.probes }

abbrev pub remember : Prober → String → Result (Unit {0}) → Go Checked
remember st key (ok u) = pure (record st { ctx = learn st.ctx key none }, ok tt)
remember st key (err e) = do
  clear_errors
  pure (record st { ctx = learn st.ctx key (some e) }, err e)
remember st key (panic s) = abort s

abbrev pub ask : Prober → String → Go (Unit {0}) → Option (Option Error) → Go Checked
ask st key run (some e) = pure (st, as_result e)
ask st key run none = attempt run >>= remember st key

-- `c.probe(key, run)`
unfoldable pub probe : Prober → String → Go (Unit {0}) → Go Checked
unfolding recall
probe st key run = ask st key run (recall key st.ctx.probes)

-- `c.curveUsable(name)`
unfoldable pub curve_usable : Prober → String → Go Checked
curve_usable st name =
    probe st (str_append "curve:" name)
      (generate_key (some st.ctx) "EC" (group name ∷ []) >>= close_key >> pure tt)

-- `curveOnce.Do(...)`
abbrev once : Option Bytes → Go Bytes
once none = read_curves
once (some t) = pure t

abbrev has_nid : ℤ → Bytes → Bool
has_nid z [] = false
has_nid z (n ∷ ns) = eq_ℕ z n || has_nid z ns

-- `curveSupported(name)`
unfoldable pub curve_supported : Prober → String → Go (Prober × Bool)
curve_supported st name = do
  t ← once st.curves
  nid ← curve_nid name
  pure (record st { curves = some t }, not (eq_ℕ nid 0) && has_nid nid t)

-- `hashesInternally(k)`
unfoldable pub hashes_internally : String → Bool
hashes_internally k =
    upper_has_prefix k "ED25519"
    || (upper_has_prefix k "ED448" || (upper_has_prefix k "ML-DSA" || upper_has_prefix k "SLH-DSA"))

-- `s.options()`
abbrev pub capability_options : SignatureCapability → SignOptions
capability_options s = record zero_options {
  digest = s.digest;
  format = s.format;
  prehash = s.prehash;
  deterministic = s.deterministic;
  context = if s.context then some (utf8_bytes "capability-probe") else none;
}

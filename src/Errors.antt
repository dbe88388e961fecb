-- ===== src/Errors.antt =====
-- The error values of the package (ossl/errors_common.go), and the causes that the code builds with
-- `fmt.Errorf`. A message's text is not modelled: each cause is a constructor.
use ossl_go.Prelude.{ℕ, ◌%◌, Bool, true, false, ◌||◌, String, List, [], ◌∷◌, ◌==◌}

-- An `*Error`: the operation that failed, and the codes that were on the error queue, oldest first.
pub record OpError : Type 0 where
  pub op : String
  pub codes : List ℕ

-- The causes that `fmt.Errorf` is given without another error.
pub data Refusal : Type 0 where
  output_not_positive output_too_long : Refusal
  iterations_not_positive iterations_too_many : Refusal
  argon_iterations argon_memory argon_lanes argon_variant : Refusal
  param_type : Refusal
  key_length aead_mode not_aead iv_range padding_scheme iv_length not_whole_blocks : Refusal
  padding_not_here : Refusal
  nonce_range tag_range nonce_length : Refusal
  kek_length nothing_to_wrap wrap_length : Refusal
  no_context context_too_long no_prehash not_rsa_padding not_rsa_salt bad_salt : Refusal
  no_deterministic not_rsa_mgf1 not_ec_format pss_key_pkcs1 : Refusal
  der_malformed der_trailing der_negative der_wide p1363_length : Refusal
  digest_unavailable digest_length no_raw_digest no_digest_form prehash_length : Refusal
  not_streamable already_finalised : Refusal
  xof_needs_length : Refusal
  mac_name_empty mac_size_negative mac_size_too_large gmac_needs_iv : Refusal
  heap_not_positive heap_not_power heap_initialised : Refusal
  buffer_not_positive buffer_too_long heap_not_initialised heap_exhausted not_from_heap : Refusal
  not_rsa_key too_small_for_oaep malloc_failed empty_encapsulation : Refusal
  type_mismatch not_ec_cofactor empty_secret : Refusal
  fips_needs_context too_many_providers : Refusal
  empty_uri nothing_found too_many_names : Refusal
  cap_nil cap_key cap_key_unavailable cap_curve_not_ec cap_ec_curve : Refusal
  cap_curve_not_built cap_digest_internal cap_digest_xof cap_cipher cap_cipher_unavailable : Refusal
  cap_round_trip : Refusal
  name_unavailable name_empty : Refusal
  not_ec_key empty_key_input empty_raw_input version_mismatch : Refusal

pub data Error : Type 0 where
  -- `ErrClosed`
  closed : Error
  -- `ErrVerification`
  verification : Error
  -- `ErrUnavailable`
  unavailable : Error
  -- an `*Error` from `newError`
  library : OpError → Error
  -- `fmt.Errorf("%w: %s", ErrVerification, detail)`
  verification_detail : OpError → Error
  refused : Refusal → Error
  -- `fmt.Errorf` that wraps a cause by `%w`
  wrapped : Error → Error

-- `errors.Is(err, ErrVerification)`
abbrev pub is_verification : Error → Bool
is_verification verification = true
is_verification (verification_detail e) = true
is_verification (wrapped e) = is_verification e
is_verification _ = false

-- `int(c & 0xfff) == reason`, for one of the codes
abbrev any_reason : ℕ → List ℕ → Bool
any_reason reason [] = false
any_reason reason (c ∷ cs) = c % 4096 == reason || any_reason reason cs

abbrev pub reason : OpError → ℕ → Bool
reason e r = any_reason r e.codes

-- What a Go function ends in: a value with a nil error, an error, or a panic.
pub data Result {ℓ} (A : Type ℓ) : Type ℓ where
  ok : A → Result A
  err : Error → Result A
  panic : String → Result A

infixl 5 ◌>>=◌ ◌>>◌
abbrev pub ◌>>=◌ {ℓ κ} : {A : Type ℓ} {B : Type κ} → Result A → (A → Result B) → Result B
ok a >>= f = f a
err e >>= f = err e
panic s >>= f = panic s

abbrev pub ◌>>◌ {ℓ} : {B : Type ℓ} → Result (Unit {0}) → Result B → Result B
m >> k = m >>= λ _. k

-- `if refuse { return fmt.Errorf(...) }`
abbrev pub unless : Bool → Refusal → Result (Unit {0})
unless true r = err (refused r)
unless false r = ok tt

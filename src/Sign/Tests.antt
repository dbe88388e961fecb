-- ===== src/Sign/Tests.antt =====
-- Tests of the signatures, and the theorems at concrete inputs.
use ossl_go.Prelude.{ℕ, ◌≡◌, ◌*◌, refl, Bytes, length, [], ◌∷◌, Option, some}
use ossl_go.Errors.{ok}
use ossl_go.Cgo.{
  pure, fail, abort, lift, ◌>>=◌, call, call_pos, acquire_or, using, using_or_else, with_cstring,
  deferred, acquire, clear_errors, release, new_error,
}
use ossl_go.Cgo.Balance.{Balanced}
use ossl_go.Cgo.Ordered.{AskedInOrder}
use ossl_go.Cgo.Trace.{Asked}
use ossl_go.Params.{new_params, utf8, octets, cstr, cbytes, alloc, with_params, free}
use ossl_go.Names.{has_prefix, upper_has_prefix}
use ossl_go.Key.{default_digest, one_shot_type, key_context}
use ossl_go.Samples.{fresh, signing_world, key_of}
use ossl_go.SignOptions.{
  SignOptions, zero_options, p1363, sign_opts, check_sign_options, apply_sign_options,
  apply_ed25519, set_pkey_params,
}
use ossl_go.SignOptions.Applied.{SetsContext}
use ossl_go.Sign.{sign_digest, verify_digest}
use ossl_go.Sign.{
  coordinate_len, with_digest_name, sized_call, sign, sign_with, verify, verify_with, verify_digest,
  digest_context, check_digest_options, digest_size, apply_digest_param,
}
use ossl_go.Sign.Accepts.{Accepted, verify_sound, verify_digest_sound}
use ossl_go.Sign.Balance.{one_shot-Balanced}
use ossl_go.Sign.Binding.{binding, sign_binds_context, verify_binds_context}
use ossl_go.Sign.Output.{sign_p1363_width}

abbrev raw : Bytes
raw = 0 ∷ 0x80 ∷ 0 ∷ 0 ∷ []

abbrev as_p1363 : Option SignOptions
as_p1363 = some (record zero_options { digest = "SHA2-256"; format = p1363 })

accepts : (verify (key_of "EC") (1 ∷ []) raw as_p1363 fresh).0 ≡ ok tt
unfolding verify verify_with lift ◌>>=◌ check_sign_options clear_errors using acquire_or acquire
    with_digest_name with_cstring sign_opts apply_sign_options call_pos call pure deferred release
    default_digest ossl_go.Ecdsa.p1363_to_der
accepts = refl

verify_sound_example :
    Asked fresh.lib "EVP_DigestVerify"
      (Accepted (key_of "EC") (sign_opts (key_of "EC") as_p1363) (1 ∷ []) raw)
      []
      (verify (key_of "EC") (1 ∷ []) raw as_p1363 fresh).1.trace
verify_sound_example = verify_sound (key_of "EC") (1 ∷ []) raw as_p1363 fresh accepts

abbrev digest : Bytes
digest = 3 ∷ 4 ∷ []

accepts_digest : (verify_digest (key_of "EC") digest raw as_p1363 fresh).0 ≡ ok tt
unfolding verify_digest lift ◌>>=◌ check_sign_options clear_errors using acquire_or acquire
    with_digest_name with_cstring sign_opts apply_sign_options call_pos call pure deferred release
    default_digest fail digest_context check_digest_options digest_size using_or_else
    apply_digest_param set_pkey_params new_params utf8 cstr alloc with_params free ossl_go.Params.c
    key_context ossl_go.Ecdsa.p1363_to_der
accepts_digest = refl

verify_digest_sound_example :
    Asked fresh.lib "EVP_PKEY_verify"
      (Accepted (key_of "EC") (sign_opts (key_of "EC") as_p1363) digest raw)
      []
      (verify_digest (key_of "EC") digest raw as_p1363 fresh).1.trace
verify_digest_sound_example =
    verify_digest_sound (key_of "EC") digest raw as_p1363 fresh accepts_digest

abbrev in_context : Option SignOptions
in_context = some (record zero_options { context = some (5 ∷ []) })

signs_in_context : (sign (key_of "ED25519") (1 ∷ []) in_context fresh).0 ≡ ok (7 ∷ 9 ∷ [])
unfolding sign sign_with sized_call lift ◌>>=◌ check_sign_options clear_errors using acquire_or
    acquire with_digest_name with_cstring sign_opts apply_sign_options call_pos call pure deferred
    release default_digest new_error abort apply_ed25519 set_pkey_params new_params utf8 octets cstr
    cbytes alloc with_params free ossl_go.Params.c one_shot_type upper_has_prefix has_prefix
signs_in_context = refl

sign_binds_context_example :
    (op : ℕ × ℕ) × AskedInOrder fresh.lib
      (binding (key_of "ED25519") (1 ∷ []) (5 ∷ []) op)
      []
      (sign (key_of "ED25519") (1 ∷ []) in_context fresh).1.trace
unfolding sign_opts
sign_binds_context_example =
    sign_binds_context (key_of "ED25519") (1 ∷ []) in_context (5 ∷ []) (7 ∷ 9 ∷ []) fresh refl
      signs_in_context

verifies_in_context : (verify (key_of "ED25519") (1 ∷ []) raw in_context fresh).0 ≡ ok tt
unfolding verify verify_with lift ◌>>=◌ check_sign_options clear_errors using acquire_or acquire
    with_digest_name with_cstring sign_opts apply_sign_options call_pos call pure deferred release
    default_digest apply_ed25519 set_pkey_params new_params utf8 octets cstr cbytes alloc
    with_params free ossl_go.Params.c one_shot_type upper_has_prefix has_prefix
verifies_in_context = refl

verify_binds_context_example :
    Asked fresh.lib "EVP_PKEY_CTX_set_params"
      (SetsContext (5 ∷ []))
      []
      (verify (key_of "ED25519") (1 ∷ []) raw in_context fresh).1.trace
unfolding sign_opts
verify_binds_context_example =
    verify_binds_context (key_of "ED25519") (1 ∷ []) raw in_context (5 ∷ []) fresh refl
      verifies_in_context

signs_p1363 : (sign (key_of "EC") (1 ∷ []) as_p1363 signing_world).0 ≡ ok raw
unfolding sign sign_with sized_call lift ◌>>=◌ check_sign_options clear_errors using acquire_or
    acquire with_digest_name with_cstring sign_opts apply_sign_options call_pos call pure deferred
    release default_digest new_error abort ossl_go.Ecdsa.der_to_p1363
signs_p1363 = refl

sign_p1363_width_example : length raw ≡ 2 * coordinate_len (key_of "EC")
unfolding sign_opts
sign_p1363_width_example =
    sign_p1363_width (key_of "EC") (1 ∷ []) as_p1363 raw signing_world refl signs_p1363

one_shot-Balanced_example :
    (Balanced (sign (key_of "EC") (1 ∷ []) as_p1363)
      × Balanced (verify (key_of "EC") (1 ∷ []) raw as_p1363))
    × (Balanced (sign_digest (key_of "EC") (1 ∷ []) as_p1363)
        × Balanced (verify_digest (key_of "EC") (1 ∷ []) raw as_p1363))
one_shot-Balanced_example = one_shot-Balanced (key_of "EC") (1 ∷ []) raw as_p1363

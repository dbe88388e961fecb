-- ===== src/Capability/Tests.antt =====
-- Tests of the capabilities, and the theorems at a concrete input.
use ossl_go.Prelude.{true, false, str_eq, ◌≡◌, refl, List, [], ◌∷◌, none, some, if◌then◌else◌}
use ossl_go.Prelude.Int.{pos}
use ossl_go.Errors.{ok, err, refused, cap_digest_internal}
use ossl_go.Cgo.{
  World, Call, Reply, pure, fail, abort, lift, ◌>>=◌, attempt, call, call_one, call_pos, acquire,
  acquire_or, using, using_or_else, release, deferred, with_cstring, clear_errors, new_error,
}
use ossl_go.Names.{upper_has_prefix}
use ossl_go.Params.{new_params, utf8, cstr, alloc, free, with_params}
use ossl_go.Context.{default}
use ossl_go.Key.{generate, generate_key, close_key, apply_options, set_key_options, key_type}
use ossl_go.SignOptions.{der, check_sign_options, sign_opts}
use ossl_go.Enumerate.{key_algorithm_available, digest_available}
use ossl_go.Enumerate.Curves.{curve_nid, read_curves}
use ossl_go.Enumerate.Parse.{digest_is_xof}
use ossl_go.Samples.{agreeing, fresh, key_of}
use ossl_go.Capability.{
  SignatureCapability, signature, Prober, recall, probe, curve_usable, curve_supported,
  hashes_internally, capability_options,
}
use ossl_go.Capability.Check.{check_key, check_curve, check_digest, check_signature, check}
use ossl_go.Capability.Memo.{curve_usable_settled}
use ossl_go.Capability.Predicts.{CurveRule, DigestRule, check_signature_predicts}

-- It supplies everything, and a curve of the number 1; no digest is an XOF.
abbrev supplying : List Call → Call → Reply
supplying t c = record (agreeing t c) {
  rc = if str_eq c.fn "EVP_MD_xof" then pos 0 else pos 1;
  out = 9 ∷ 1 ∷ [];
}

abbrev supplied_world : World
supplied_world = record fresh { lib = supplying }

abbrev unasked : Prober
unasked = record { ctx = default; curves = none }

abbrev ecdsa : SignatureCapability
ecdsa = record {
  key = "EC";
  curve = "P-256";
  digest = "SHA2-256";
  format = der;
  prehash = false;
  deterministic = true;
  context = false;
}

abbrev settled : Prober
settled = record {
  ctx = record default { probes = ("curve:P-256", none) ∷ [] };
  curves = some (9 ∷ 1 ∷ []);
}

accepted : (check_signature unasked ecdsa supplied_world).0 ≡ ok (settled, ok tt)
unfolding check_signature check_key check_curve check_digest check_sign_options curve_supported
    curve_usable curve_nid read_curves probe recall hashes_internally upper_has_prefix
    key_algorithm_available digest_available digest_is_xof generate_key generate close_key
    set_key_options apply_options pure fail abort lift ◌>>=◌ attempt call call_one call_pos acquire
    acquire_or using using_or_else release deferred with_cstring clear_errors new_error new_params
    utf8 cstr alloc free with_params ossl_go.Params.c
accepted = refl

hashes_itself :
    (check_digest default (record ecdsa { key = "ED25519" }) fresh).0
    ≡ err (refused cap_digest_internal)
unfolding check_digest hashes_internally upper_has_prefix fail
hashes_itself = refl

check_signature_predicts_example :
    (check_sign_options
        (key_type (key_of "EC"))
        (sign_opts (key_of "EC") (some (capability_options ecdsa)))
      ≡ ok tt)
    × CurveRule ecdsa
    × DigestRule ecdsa
check_signature_predicts_example =
    check_signature_predicts unasked ecdsa (key_of "EC") supplied_world settled accepted refl

usable : (curve_usable unasked "P-256" fresh).0 ≡ ok (record settled { curves = none }, ok tt)
unfolding curve_usable probe recall generate_key generate close_key set_key_options apply_options
    pure fail abort ◌>>=◌ attempt call call_one call_pos acquire acquire_or using release deferred
    with_cstring clear_errors new_error new_params utf8 cstr alloc free with_params ossl_go.Params.c
usable = refl

checked_next :
    (check (record settled { curves = none }) (signature ecdsa) supplied_world).0
    ≡ ok (settled, ok tt)
unfolding check check_signature check_key check_curve check_digest check_sign_options
    curve_supported curve_usable curve_nid read_curves probe recall hashes_internally
    upper_has_prefix key_algorithm_available digest_available digest_is_xof pure fail abort lift
    ◌>>=◌ attempt call call_one call_pos acquire acquire_or using using_or_else release deferred
    with_cstring clear_errors new_error
checked_next = refl

curve_usable_settled_example : curve_usable settled "P-256" fresh ≡ (ok (settled, ok tt), fresh)
curve_usable_settled_example =
    curve_usable_settled unasked "P-256" (signature ecdsa) (record settled { curves = none }, ok tt)
      (settled, ok tt) fresh supplied_world fresh usable checked_next

-- ===== src/SignOptions/Tests.antt =====
-- Tests of the signature options, and the theorem at a concrete input.
use ossl_go.Prelude.{◌≡◌, ◌↔◌, refl, [], ◌∷◌, some}
use ossl_go.Errors.{ok, err, refused, no_context, pss_key_pkcs1}
use ossl_go.Names.{has_prefix}
use ossl_go.SignOptions.{SignOptions, zero_options, pkcs1v15, check_sign_options}
use ossl_go.SignOptions.Families.{Allowed, family, check_sign_options_exact}

abbrev in_context : SignOptions
in_context = record zero_options { context = some (1 ∷ []) }

context-rsa : check_sign_options "RSA" in_context ≡ err (refused no_context)
unfolding check_sign_options has_prefix
context-rsa = refl

context-ml_dsa : check_sign_options "ML-DSA-65" in_context ≡ ok tt
unfolding check_sign_options has_prefix
context-ml_dsa = refl

pkcs1-rsa_pss :
    check_sign_options "RSA-PSS" (record zero_options { padding = pkcs1v15 })
    ≡ err (refused pss_key_pkcs1)
unfolding check_sign_options has_prefix
pkcs1-rsa_pss = refl

check_sign_options_exact_example :
    check_sign_options "ML-DSA-65" in_context ≡ ok tt ↔ Allowed (family "ML-DSA-65") in_context
check_sign_options_exact_example = check_sign_options_exact "ML-DSA-65" in_context

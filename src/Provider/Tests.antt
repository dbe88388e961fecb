-- ===== src/Provider/Tests.antt =====
-- Tests of the enumeration of providers.
use ossl_go.Prelude.{◌≡◌, refl, true, [], ◌∷◌, some, none}
use ossl_go.Errors.{ok, err, closed}
use ossl_go.Cgo.{pure, fail, ◌>>=◌, call, call_one, clear_errors, new_error}
use ossl_go.Context.{default}
use ossl_go.Samples.{fresh}
use ossl_go.Provider.Infos.{provider_info, provider_infos, collect_providers, providers}

two :
    (providers (some default) fresh).0
    ≡ ok (
        record { name = ""; version = ""; active = true }
        ∷ record { name = ""; version = ""; active = true }
        ∷ [])
unfolding providers provider_infos provider_info collect_providers pure fail ◌>>=◌ call call_one
    clear_errors new_error
two = refl

nil_context : (providers none fresh).0 ≡ err closed
unfolding providers fail
nil_context = refl

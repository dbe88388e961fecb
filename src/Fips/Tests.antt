-- ===== src/Fips/Tests.antt =====
-- Tests of the FIPS context, and its theorem at a concrete input.
use ossl_go.Prelude.{◌≡◌, refl, [], none, some}
use ossl_go.Errors.{ok, err, refused, fips_needs_context}
use ossl_go.Cgo.{
  pure, fail, ◌>>=◌, call, call_one, acquire, release, with_cstring, deferred, clear_errors,
}
use ossl_go.Cgo.Trace.{Asked}
use ossl_go.Context.{Context, new_context}
use ossl_go.Provider.{available, load_provider}
use ossl_go.Samples.{fresh}
use ossl_go.Fips.{
  on_error, wrap_error, load_config, self_test, switch_fips, enable_fips, new_fips_context,
}
use ossl_go.Fips.Enabled.{Passed, TurnedOn, new_fips_context_restricted}

abbrev fips_context : Context
fips_context = record { ctx = some 1; fips = some (record { prov = some 5 }); probes = [] }

makes_context : (new_fips_context "fips.cnf" fresh).0 ≡ ok fips_context
unfolding new_fips_context new_context on_error enable_fips switch_fips load_config self_test
    wrap_error load_provider available pure fail ◌>>=◌ call call_one acquire release with_cstring
    deferred clear_errors
makes_context = refl

global-refused : (enable_fips none "fips.cnf" fresh).0 ≡ err (refused fips_needs_context)
unfolding enable_fips fail
global-refused = refl

new_fips_context_restricted_example :
    Asked fresh.lib "OSSL_PROVIDER_self_test" Passed [] (new_fips_context "fips.cnf" fresh).1.trace
    × Asked fresh.lib "EVP_default_properties_enable_fips" TurnedOn []
        (new_fips_context "fips.cnf" fresh).1.trace
new_fips_context_restricted_example =
    new_fips_context_restricted "fips.cnf" fips_context fresh makes_context

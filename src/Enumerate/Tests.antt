-- ===== src/Enumerate/Tests.antt =====
-- Tests of the enumerations, and the theorem at a concrete input.
use ossl_go.Prelude.{◌≡◌, refl, str_eq, List, [], ◌∷◌, length, ◌==◌, if◌then◌else◌, some}
use ossl_go.Errors.{ok}
use ossl_go.Cgo.{
  World, Call, Reply, pure, fail, abort, ◌>>=◌, call, deferred, release, acquire, with_cstring,
  clear_errors,
}
use ossl_go.Params.{release_all}
use ossl_go.Context.{default}
use ossl_go.Samples.{agreeing, fresh}
use ossl_go.Enumerate.{
  insert_name, less_codes, strdup, name_append, call_back, sort_names, less_name, collect,
  digest_available, keep_available, list_digests,
}
use ossl_go.Enumerate.Curves.{read_curves, display_name, display_names, list_curves}
use ossl_go.Enumerate.Collected.{supplied}
use ossl_go.Enumerate.Exact.{IsListOf, collect_exact}

-- Three callbacks, of which two give the same name.
abbrev three_names : List Call → Call → Reply
three_names t c = record (agreeing t c) {
  len = if str_eq c.fn "EVP_MD_do_all_provided" then 3 else 0;
  text = if length t == 2 then "SHA2-256" else "MD5";
}

abbrev enumerating : World
enumerating = record fresh { lib = three_names }

lists : (list_digests (some default) enumerating).0 ≡ ok ("MD5" ∷ "SHA2-256" ∷ [])
unfolding list_digests collect call_back name_append strdup sort_names less_name digest_available
    keep_available pure fail ◌>>=◌ call deferred release acquire with_cstring clear_errors
    release_all
lists = refl

collect_exact_example :
    IsListOf
      (supplied default "EVP_MD_do_all_provided" "EVP_MD_get0_name" enumerating)
      (collect default "EVP_MD_do_all_provided" "EVP_MD_get0_name" enumerating).0
collect_exact_example =
    collect_exact default "EVP_MD_do_all_provided" "EVP_MD_get0_name" enumerating

-- a number has the name of the standard where it has one, and a name that stands twice is kept
curves : (list_curves fresh).0 ≡ ok ("" ∷ "" ∷ [])
unfolding list_curves read_curves display_names display_name sort_names insert_name less_name
    less_codes pure abort ◌>>=◌ call
curves = refl

-- ===== src/Names/Tests.antt =====
-- Tests of the name tests.
use ossl_go.Prelude.{◌≡◌, refl, true, false}
use ossl_go.Names.{has_prefix, upper_has_prefix, and_query}

prefixes :
    (has_prefix "ML-DSA-65" "ML-DSA" ≡ true)
    × (has_prefix "ml-dsa-65" "ML-DSA" ≡ false)
    × (upper_has_prefix "ml-dsa-65" "ML-DSA" ≡ true)
unfolding has_prefix upper_has_prefix
prefixes = (refl, refl, refl)

queries : and_query "fips=yes" "provider=fips" ≡ "fips=yes,provider=fips"
unfolding and_query
queries = refl

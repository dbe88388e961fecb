-- ===== src/Version/Tests.antt =====
-- Tests of the comparison of versions, and the theorem at a concrete input.
use ossl_go.Prelude.{arith, ◌≡◌, ◌↔◌, refl, true, false}
use ossl_go.Prelude.Int.{pos, negsuc}
use ossl_go.Version.{at_least}
use ossl_go.Version.Order.{version_number, NotBefore, at_least_exact}

-- 0x30500020
three_five : at_least 0x30500020 (pos 3) (pos 5) ≡ true
unfolding at_least
three_five = refl

-- a negative argument is a large uint64
negative_minor : at_least 0x30500020 (pos 3) (negsuc 0) ≡ false
unfolding at_least
negative_minor = refl

at_least_exact_example : at_least (version_number 3 5 2) (pos 3) (pos 4) ≡ true ↔ NotBefore 3 4 3 5
at_least_exact_example =
    at_least_exact 3 5 2 3 4 (omega arith) (omega arith) (omega arith) (omega arith) (omega arith)

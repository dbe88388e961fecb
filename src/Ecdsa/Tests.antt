-- ===== src/Ecdsa/Tests.antt =====
-- Tests of the two encodings, and their round trip at a concrete signature.
use ossl_go.Prelude.{Bytes, arith, ◌≡◌, refl, [], ◌∷◌}
use ossl_go.Errors.{ok, ◌>>=◌}
use ossl_go.Ecdsa.RoundTrip.{der_to_p1363-p1363_to_der}
use ossl_go.Ecdsa.{p1363_to_der, der_to_p1363}

abbrev raw : Bytes
raw = 0 ∷ 0x80 ∷ 0 ∷ 0 ∷ []

abbrev der : Bytes
der = 0x30 ∷ 7 ∷ 2 ∷ 2 ∷ 0 ∷ 0x80 ∷ 2 ∷ 1 ∷ 0 ∷ []

encode : p1363_to_der raw 2 ≡ ok der
unfolding p1363_to_der
encode = refl

decode : der_to_p1363 der 2 ≡ ok raw
unfolding der_to_p1363
decode = refl

der_to_p1363-p1363_to_der_example : (p1363_to_der raw 2 >>= λ der. der_to_p1363 der 2) ≡ ok raw
der_to_p1363-p1363_to_der_example = der_to_p1363-p1363_to_der raw 2 (omega arith) (omega arith)

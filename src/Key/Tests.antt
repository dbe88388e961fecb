-- ===== src/Key/Tests.antt =====
-- The theorem on generated keys at a concrete input.
use ossl_go.Prelude.{[], ◌∷◌, some}
use ossl_go.Prelude.Int.{pos}
use ossl_go.Cgo.{◌>>=◌}
use ossl_go.Cgo.Balance.{Balanced}
use ossl_go.Context.{default}
use ossl_go.Key.{rsa_bits, generate_key, close_key}
use ossl_go.Key.Made.{generate_key-close-Balanced}

generate_key-close-Balanced_example :
    Balanced (generate_key (some default) "RSA" (rsa_bits (pos 3072) ∷ []) >>= close_key)
generate_key-close-Balanced_example =
    generate_key-close-Balanced (some default) "RSA" (rsa_bits (pos 3072) ∷ [])

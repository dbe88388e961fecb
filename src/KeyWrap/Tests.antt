-- ===== src/KeyWrap/Tests.antt =====
-- Tests of key wrap, and the theorem at a concrete input.
use ossl_go.Prelude.{◌≡◌, refl, [], ◌∷◌, some, false}
use ossl_go.Errors.{ok, err, verification, refused, kek_length}
use ossl_go.Cgo.{fail}
use ossl_go.Samples.{fresh}
use ossl_go.KeyWrap.{KeyWrap, wrap_name, unwrap_key}
use ossl_go.KeyWrap.Uniform.{unwrap_key_uniform}

abbrev wrapper : KeyWrap
wrapper = record {
  cipher = 50;
  kek = 1 ∷ [];
  name = "AES-128-WRAP";
  padded = false;
  is_closed = false;
}

name-24 : wrap_name 24 false ≡ ok "AES-192-WRAP"
name-24 = refl

name-17 : wrap_name 17 false ≡ err (refused kek_length)
name-17 = refl

short : (unwrap_key (some wrapper) (1 ∷ 2 ∷ []) fresh).0 ≡ err verification
unfolding unwrap_key fail
short = refl

unwrap_key_uniform_example : verification ≡ verification
unwrap_key_uniform_example = unwrap_key_uniform wrapper (1 ∷ 2 ∷ []) fresh verification refl short

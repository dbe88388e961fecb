-- ===== src/Asym/Tests.antt =====
-- Tests of RSA encryption, and the theorems at concrete inputs.
use ossl_go.Prelude.{◌≡◌, ◌⊎◌, refl, if◌then◌else◌, str_eq, [], ◌∷◌, Option, none, some}
use ossl_go.Prelude.Int.{pos, negsuc}
use ossl_go.Errors.{ok, err, verification, refused, not_rsa_key}
use ossl_go.Cgo.{
  World, pure, fail, ◌>>=◌, call, call_pos, acquire, acquire_or, using, release, deferred,
  clear_errors, with_cstring, new_error, abort, hand_over, free_now,
}
use ossl_go.Cgo.Balance.{Balanced}
use ossl_go.Key.{key_context}
use ossl_go.Samples.{agreeing, fresh, key_of}
use ossl_go.Asym.{
  OaepOptions, resolve, apply_label, apply_oaep, key_operation, sized, encrypt_oaep, decrypt_oaep,
  oaep_room,
}
use ossl_go.Asym.Balance.{encrypt_oaep-Balanced}
use ossl_go.Asym.Uniform.{decrypt_oaep_blind}

abbrev with_label : Option OaepOptions
with_label = some (record { hash = "SHA2-384"; mgf1_hash = ""; label = 3 ∷ 4 ∷ [] })

resolves : resolve with_label ≡ ("SHA2-384", "SHA2-384", 3 ∷ 4 ∷ [])
unfolding resolve
resolves = refl

-- 2048 bits with SHA2-256
room : oaep_room 256 (pos 32) ≡ pos 190
room = refl

no_room : oaep_room 64 (pos 64) ≡ negsuc 65
no_room = refl

encrypts : (encrypt_oaep (key_of "RSA") (1 ∷ []) with_label fresh).0 ≡ ok (7 ∷ 9 ∷ [])
unfolding encrypt_oaep apply_oaep apply_label resolve key_operation sized pure fail ◌>>=◌ call
    call_pos acquire acquire_or using release deferred clear_errors with_cstring new_error abort
    hand_over free_now key_context
encrypts = refl

not_for_ec : (encrypt_oaep (key_of "EC") (1 ∷ []) none fresh).0 ≡ err (refused not_rsa_key)
unfolding encrypt_oaep fail ◌>>=◌
not_for_ec = refl

encrypt_oaep-Balanced_example : Balanced (encrypt_oaep (key_of "RSA") (1 ∷ []) with_label)
encrypt_oaep-Balanced_example = encrypt_oaep-Balanced (key_of "RSA") (1 ∷ []) with_label

-- It answers 1 to every call but the decryption.
abbrev rejecting : World
rejecting = record fresh {
  lib = λ t c. record (agreeing t c) {
    rc = if str_eq c.fn "EVP_PKEY_decrypt" then negsuc 0 else pos 1;
  };
}

rejects : (decrypt_oaep (key_of "RSA") (1 ∷ []) none rejecting).0 ≡ err verification
unfolding decrypt_oaep apply_oaep apply_label resolve key_operation sized pure fail ◌>>=◌ call
    call_pos acquire acquire_or using release deferred clear_errors with_cstring new_error
    key_context
rejects = refl

decrypt_oaep_blind_example :
    ◌≡◌ {A = ossl_go.Errors.Error} verification verification
    ⊎ (decrypt_oaep (key_of "RSA") (1 ∷ []) none rejecting
        ≡ decrypt_oaep (key_of "RSA") (2 ∷ []) none rejecting)
decrypt_oaep_blind_example =
    decrypt_oaep_blind (key_of "RSA") (1 ∷ []) (2 ∷ []) none rejecting verification refl rejects

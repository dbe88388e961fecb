-- ===== src/Signer/Tests.antt =====
-- Tests of the streams, and the theorems at concrete inputs.
use ossl_go.Prelude.{◌≡◌, refl, Bytes, [], ◌∷◌, some, none, true, false}
use ossl_go.Errors.{Error, ok, err, refused, not_streamable}
use ossl_go.Cgo.{
  pure, fail, abort, ◌>>=◌, call, call_pos, attempt, clear_errors, reject_with, new_error,
}
use ossl_go.Cgo.Trace.{Asked}
use ossl_go.Key.{one_shot_type}
use ossl_go.Names.{upper_has_prefix}
use ossl_go.Samples.{fresh, key_of}
use ossl_go.Sign.{sized_call}
use ossl_go.Signer.{
  Stream, new_stream, stream_init, sign_stream, verify_stream, write_stream, close_stream,
}
use ossl_go.Signer.Machine.{here, step, closes, Refuses, signs_once}
use ossl_go.Signer.Owned.{new_stream-close-Balanced}
use ossl_go.Cgo.Balance.{Balanced}
use ossl_go.Signer.Accepts.{AcceptedEnd, verify_stream_sound}

abbrev started : Stream
started = record { mdctx = some 30; pkey = some 31; name = "EC"; done = false }

abbrev ended : Stream
ended = record started { done = true }

abbrev message : Bytes
message = 1 ∷ 2 ∷ []

signs_it : (sign_stream started fresh).0 ≡ ok (ok (7 ∷ 9 ∷ []), ended)
unfolding sign_stream sized_call attempt pure abort call call_pos new_error ◌>>=◌
signs_it = refl

accepts : (verify_stream started message fresh).0 ≡ ok (ok tt, ended)
unfolding verify_stream attempt pure fail call clear_errors reject_with ◌>>=◌
accepts = refl

one_shot : (stream_init (key_of "ED25519") none false fresh).0 ≡ err (refused not_streamable)
unfolding stream_init fail ◌>>=◌ one_shot_type upper_has_prefix
one_shot = refl

abbrev shut : Stream
shut = record ended { mdctx = none; pkey = none }

closes_it : (close_stream ended fresh).0 ≡ ok shut
unfolding close_stream
closes_it = refl

signs_once_example :
    Refuses shut fresh (sign_stream shut fresh)
    × (((write_stream "EVP_DigestSignUpdate" shut message fresh).1 ≡ fresh)
        × ((e : Error) × ((write_stream "EVP_DigestSignUpdate" shut message fresh).0 ≡ err e)))
signs_once_example =
    signs_once started ended shut fresh fresh (7 ∷ 9 ∷ []) message "EVP_DigestSignUpdate" signs_it
      (step here (closes shut fresh closes_it))

verify_stream_sound_example :
    Asked fresh.lib "EVP_DigestVerifyFinal"
      (AcceptedEnd message)
      []
      (verify_stream started message fresh).1.trace
    × (ended.done ≡ true)
verify_stream_sound_example = verify_stream_sound started ended message fresh accepts

new_stream-close-Balanced_example : Balanced (new_stream (key_of "EC") none false >>= close_stream)
new_stream-close-Balanced_example = new_stream-close-Balanced (key_of "EC") none false

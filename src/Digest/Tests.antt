-- ===== src/Digest/Tests.antt =====
-- Tests of digests, and the theorem at a concrete input.
use ossl_go.Prelude.{◌≡◌, ◌⊎◌, refl, if◌then◌else◌, str_eq, false, true, [], ◌∷◌, none, some}
use ossl_go.Prelude.Int.{pos}
use ossl_go.Errors.{ok, refused, xof_needs_length}
use ossl_go.Cgo.{
  World, pure, fail, attempt, ◌>>=◌, call, call_one, acquire, acquire_or, using, owning, release,
  with_cstring, deferred, clear_errors,
}
use ossl_go.Cgo.Trace.{Asked}
use ossl_go.Samples.{agreeing, fresh}
use ossl_go.Digest.{Hash, new_hash, write_hash, digest_of, sum, close_hash, digest}
use ossl_go.Digest.Latched.{Succeeded, Hashed, digest_sound}

abbrev xof_hash : Hash
xof_hash = record {
  ctx = some 2;
  md = some 1;
  name = "SHAKE-128";
  size = pos 16;
  bs = pos 168;
  xof = true;
  latch = none;
}

sum-xof :
    (sum xof_hash (5 ∷ []) fresh).0
    ≡ ok (5 ∷ [], record xof_hash { latch = some (refused xof_needs_length) })
unfolding sum attempt pure fail ◌>>=◌
sum-xof = refl

-- It answers 1 to every call but the question whether the digest is extendable.
abbrev fixed_length : World
fixed_length = record fresh {
  lib = λ t c. record (agreeing t c) { rc = if str_eq c.fn "EVP_MD_xof" then pos 0 else pos 1 };
}

digests : (digest "SHA-256" (5 ∷ []) fixed_length).0 ≡ ok (7 ∷ 9 ∷ [])
unfolding digest new_hash write_hash sum digest_of close_hash attempt pure fail ◌>>=◌ call call_one
    acquire acquire_or using owning release with_cstring deferred clear_errors
digests = refl

digest_sound_example :
    Asked fixed_length.lib "EVP_DigestFinal_ex" Succeeded []
      (digest "SHA-256" (5 ∷ []) fixed_length).1.trace
    × ((false ≡ true)
        ⊎ Asked fixed_length.lib "EVP_DigestUpdate"
            (Hashed (5 ∷ []))
            []
            (digest "SHA-256" (5 ∷ []) fixed_length).1.trace)
digest_sound_example = digest_sound "SHA-256" (5 ∷ []) (7 ∷ 9 ∷ []) fixed_length digests

-- ===== src/Signer.antt =====
-- ossl/signer.go: signatures over a message that is written in pieces. `Signer` and `Verifier` have
-- the same fields and share `streamInit`; here they are one record, and the methods that differ have
-- a version each. A method that changes its receiver returns the new one beside its result.
pub mod Machine
pub mod Owned
pub mod Accepts
pub mod Tests
use ossl_go.Prelude.{
  ℕ, Bytes, Bool, true, false, not, ◌||◌, String, str_append, List, [], ◌∷◌, Option, none, some,
  ◌==◌, if◌then◌else◌, length,
}
use ossl_go.Prelude.Int.{is_nonpos}
use ossl_go.Errors.{
  Error, Result, ok, err, panic, closed, verification, refused, not_streamable, already_finalised,
}
use ossl_go.Cgo.{
  World, Go, Arg, bytes, ptr, null, Reply, pure, fail, lift, ◌>>=◌, ◌>>◌, attempt, call, call_pos,
  acquire_or, owning, up_ref, release, clear_errors, new_error, refuse_if,
}
use ossl_go.Key.{Key, Pkey, pkey_of, when_open, key_type, one_shot_only}
use ossl_go.SignOptions.{SignOptions, sign_opts, check_sign_options, apply_sign_options}
use ossl_go.Sign.{with_digest_name, sized_call, verdict}

pub record Stream : Type 0 where
  pub mdctx : Option ℕ
  pub pkey : Option ℕ
  pub name : String
  pub done : Bool

abbrev pub stream_init_fn : Bool → String
stream_init_fn verify = if verify then "EVP_DigestVerifyInit_ex" else "EVP_DigestSignInit_ex"

-- `EVP_PKEY_up_ref`, with the release of the context where it fails.
abbrev pub take_key : ℕ → ℕ → Go (Unit {0})
take_key mdctx addr =
    owning "EVP_MD_CTX_free" mdctx do
      taken ← up_ref "EVP_PKEY_up_ref" addr
      if taken then pure tt else new_error "EVP_PKEY_up_ref"

-- `streamInit(k, opts, verify)`: the context and the key of the stream.
unfoldable pub stream_init : Option Key → Option SignOptions → Bool → Go (ℕ × ℕ)
stream_init k opts verify = when_open (pkey_of k) λ p. do
  refuse_if (one_shot_only k) not_streamable
  let o = sign_opts k opts
  lift (check_sign_options (key_type k) o)
  clear_errors
  mdctx ← acquire_or "EVP_MD_CTX_new" [] "EVP_MD_CTX_new"
  take_key mdctx p.addr
  with_digest_name o.digest λ cd. owning "EVP_MD_CTX_free" mdctx (
      owning "EVP_PKEY_free" p.addr do
        init ←
            call_pos (stream_init_fn verify) (ptr mdctx ∷ cd ∷ null ∷ null ∷ ptr p.addr ∷ null ∷ [])
              (stream_init_fn verify)
        apply_sign_options init.len (key_type k) o
        pure (mdctx, p.addr))

-- `NewSigner(k, opts)` and `NewVerifier(k, opts)`
unfoldable pub new_stream : Option Key → Option SignOptions → Bool → Go Stream
new_stream k opts verify = do
  (mdctx, pkey) ← stream_init k opts verify
  pure (record { mdctx = some mdctx; pkey = some pkey; name = key_type k; done = false })

-- Each method first looks at `mdctx` and `done`, the first two arguments below.

-- `Write` of a Signer (`f` is EVP_DigestSignUpdate) and of a Verifier (EVP_DigestVerifyUpdate).
pub write_at : Option ℕ → Bool → String → Bytes → Go ℕ
write_at none done f p = fail closed
write_at (some mdctx) true f p = fail (refused already_finalised)
write_at (some mdctx) false f p =
    if length p == 0 then pure 0 else (do call_pos f (ptr mdctx ∷ bytes p ∷ []) f; pure (length p))

unfoldable pub write_stream : String → Stream → Bytes → Go ℕ
unfolding write_at
write_stream f s p = write_at s.mdctx s.done f p

abbrev pub after_sign : Stream → Result Bytes → Stream
after_sign s (ok sig) = record s { done = true }
after_sign s r = s

pub sign_at : Option ℕ → Bool → Stream → Go (Result Bytes × Stream)
sign_at none done s = pure (err closed, s)
sign_at (some mdctx) true s = pure (err (refused already_finalised), s)
sign_at (some mdctx) false s = do
  r ← attempt (sized_call "EVP_DigestSignFinal" (ptr mdctx ∷ []) [])
  pure (r, after_sign s r)

-- `s.Sign()`: the Signer is finished only if it succeeds.
unfoldable pub sign_stream : Stream → Go (Result Bytes × Stream)
unfolding sign_at
sign_stream s = sign_at s.mdctx s.done s

-- The result of the call, beside the Verifier that it leaves.
abbrev pub conclude : Stream → Result (Unit {0}) → Go (Result (Unit {0}) × Stream)
conclude s r = pure (r, s)

pub verify_at : Option ℕ → Bool → Stream → Bytes → Go (Result (Unit {0}) × Stream)
verify_at none done s sig = pure (err closed, s)
verify_at (some mdctx) true s sig = pure (err (refused already_finalised), s)
verify_at (some mdctx) false s sig =
    if length sig == 0
    then conclude (record s { done = true }) (err verification)
    else (attempt (
          call "EVP_DigestVerifyFinal" (ptr mdctx ∷ bytes sig ∷ [])
          >>= verdict "EVP_DigestVerifyFinal")
        >>= conclude (record s { done = true }))

-- `v.Verify(sig)`: the Verifier is finished whatever the answer.
unfoldable pub verify_stream : Stream → Bytes → Go (Result (Unit {0}) × Stream)
unfolding verify_at
verify_stream s sig = verify_at s.mdctx s.done s sig

abbrev pub release_some : String → Option ℕ → World → World
release_some f none w = w
release_some f (some a) w = release f a w

-- `Close()` of a Signer or a Verifier that is not nil.
unfoldable pub close_stream : Stream → Go Stream
close_stream s w = (
  ok (record s { mdctx = none; pkey = none }),
  release_some "EVP_PKEY_free" s.pkey (release_some "EVP_MD_CTX_free" s.mdctx w),
)

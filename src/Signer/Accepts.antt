-- ===== src/Signer/Accepts.antt =====
-- A streamed verification accepts only what libcrypto accepted, and is then finished.
use ossl_go.Prelude.{
  if◌then◌else◌, ℕ, ◌≡◌, refl, sym, subst, Bytes, Bool, true, false, List, [], ◌∷◌, Option, none,
  some, length, ◌==◌,
}
use ossl_go.Prelude.Int.{pos}
use ossl_go.Errors.{Result, ok, err, panic, verification}
use ossl_go.Cgo.{
  World, Go, Arg, ptr, bytes, Reply, call, pure, ◌>>=◌, attempt, attempt_result, continue,
}
use ossl_go.Cgo.Trace.{Asked}
use ossl_go.Cgo.Confirms.{Confirms, Confirms-weaken}
use ossl_go.Signer.{conclude, Stream, verify_at, verify_stream}
use ossl_go.Sign.{verdict}
use ossl_go.Sign.Accepts.{verdict-Answered}

-- The signature was given to a call that answered 1.
abbrev pub AcceptedEnd : Bytes → List Arg → Reply → Type 0
AcceptedEnd sig args r = (ctx : ℕ) × (args ≡ ptr ctx ∷ bytes sig ∷ []) × (r.rc ≡ pos 1)

-- What follows the attempt neither changes the world nor turns an error into a success.
attempted :
    (r : Result (Unit {0})) (s t : Stream) (v : World)
    → (continue (attempt_result r) (conclude s) v).0 ≡ ok (ok tt, t)
    → (r ≡ ok tt) × (s ≡ t) × ((continue (attempt_result r) (conclude s) v).1 ≡ v)
unfolding pure
attempted (ok u) s t v h = (refl, cc h, refl)
attempted (err e) s t v h = absurd (cc h)
attempted (panic m) s t v h = absurd (cc h)

final_call :
    (m : Go (Unit {0})) (sig : Bytes) (s t : Stream) (w : World)
    → Confirms "EVP_DigestVerifyFinal" (AcceptedEnd sig) m
    → ((attempt m >>= conclude s) w).0 ≡ ok (ok tt, t)
    → Asked w.lib "EVP_DigestVerifyFinal"
        (AcceptedEnd sig)
        w.trace
        ((attempt m >>= conclude s) w).1.trace
      × (s ≡ t)
unfolding ◌>>=◌ attempt
final_call m sig s t w c h =
    let (one, same, world) = attempted (m w).0 s t (m w).1 h in
    (
      subst (λ v. Asked w.lib "EVP_DigestVerifyFinal" (AcceptedEnd sig) w.trace v.trace) (sym world)
          (c.at w tt one),
      same,
    )

verify_at_sound :
    (o : Option ℕ) (d : Bool) (s t : Stream) (sig : Bytes) (w : World)
    → (verify_at o d s sig w).0 ≡ ok (ok tt, t)
    → Asked w.lib "EVP_DigestVerifyFinal" (AcceptedEnd sig) w.trace (verify_at o d s sig w).1.trace
      × (t.done ≡ true)
unfolding verify_at
verify_at_sound none d s t sig w h = absurd (unfold pure in cc h)
verify_at_sound (some m) true s t sig w h = absurd (unfold pure in cc h)
verify_at_sound (some m) false s t sig w h = nonempty (length sig == 0) h
  where
    end : Stream
    end = record s { done = true }

    ask : Go (Unit {0})
    ask = call "EVP_DigestVerifyFinal" (ptr m ∷ bytes sig ∷ []) >>= verdict "EVP_DigestVerifyFinal"

    body : Bool → Go (Result (Unit {0}) × Stream)
    body b = if b then conclude end (err verification) else (attempt ask >>= conclude end)

    nonempty :
        (b : Bool)
        → (body b w).0 ≡ ok (ok tt, t)
        → Asked w.lib "EVP_DigestVerifyFinal" (AcceptedEnd sig) w.trace (body b w).1.trace
          × (t.done ≡ true)
    nonempty true k = absurd (unfold pure in cc k)
    nonempty false k =
        let (asked, e) =
          final_call ask sig end t w
            (Confirms-weaken _ (λ args r q. (m, q.0, q.1)) (verdict-Answered _ _)) k in
        (asked, subst (λ u. u.done ≡ true) e refl)

-- A Verifier accepts a signature only if EVP_DigestVerifyFinal was given it and answered exactly 1;
-- and the Verifier is then finished.
pub verify_stream_sound :
    (s t : Stream) (sig : Bytes) (w : World)
    → (verify_stream s sig w).0 ≡ ok (ok tt, t)
    → Asked w.lib "EVP_DigestVerifyFinal" (AcceptedEnd sig) w.trace (verify_stream s sig w).1.trace
      × (t.done ≡ true)
unfolding verify_stream
verify_stream_sound s t sig w h = verify_at_sound s.mdctx s.done s t sig w h

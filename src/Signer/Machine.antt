-- ===== src/Signer/Machine.antt =====
-- A stream as a state machine: what a caller can do with it, and that it is finished once.
use ossl_go.Prelude.{
  [], ◌∷◌, ℕ, ◌≡◌, ◌⊎◌, inl, inr, refl, subst, Bytes, Bool, true, false, String, Option, none, some,
}
use ossl_go.Errors.{Error, Result, ok, err, panic}
use ossl_go.Cgo.Returns.{Ensures, Ensures-pure, Ensures-bind}
use ossl_go.Sign.{sized_call}
use ossl_go.Cgo.{ptr, World, pure, fail, attempt}
use ossl_go.Signer.{
  Stream, after_sign, write_at, write_stream, sign_at, sign_stream, verify_at, verify_stream,
  close_stream,
}

-- One method call. A `Write` leaves the fields as they are.
pub data Step (s : Stream) : Stream → Type 0 where
  signs : (t : Stream) (w : World) (r : Result Bytes) → (sign_stream s w).0 ≡ ok (r, t) → Step s t
  verifies :
      (t : Stream) (w : World) (sig : Bytes) (r : Result (Unit {0}))
      → (verify_stream s sig w).0 ≡ ok (r, t)
      → Step s t
  closes : (t : Stream) (w : World) → (close_stream s w).0 ≡ ok t → Step s t

-- Any number of method calls.
pub data Reaches (s : Stream) : Stream → Type 0 where
  here : Reaches s s
  step : {t u : Stream} → Reaches s t → Step t u → Reaches s u

-- The stream has signed or verified, or is closed.
abbrev pub Finished : Stream → Type 0
Finished s = (s.done ≡ true) ⊎ (s.mdctx ≡ none)

-- A method ends in an error, with the world and the stream as they were.
abbrev pub Refuses {ℓ} : {A : Type ℓ} → Stream → World → Result (Result A × Stream) × World → Type ℓ
Refuses s w m = (m.1 ≡ w) × ((e : Error) × (m.0 ≡ ok (err e, s)))

module _ (s : Stream) (w : World) where
  sign_at-Refuses :
      (o : Option ℕ) (d : Bool) → (d ≡ true) ⊎ (o ≡ none) → Refuses s w (sign_at o d s w)
  unfolding sign_at pure
  sign_at-Refuses none d h = (refl, (_, refl))
  sign_at-Refuses (some m) true h = (refl, (_, refl))
  sign_at-Refuses (some m) false (inl e) = absurd (cc e)
  sign_at-Refuses (some m) false (inr e) = absurd (cc e)

  verify_at-Refuses :
      (o : Option ℕ) (d : Bool) (sig : Bytes)
      → (d ≡ true) ⊎ (o ≡ none)
      → Refuses s w (verify_at o d s sig w)
  unfolding verify_at pure
  verify_at-Refuses none d sig h = (refl, (_, refl))
  verify_at-Refuses (some m) true sig h = (refl, (_, refl))
  verify_at-Refuses (some m) false sig (inl e) = absurd (cc e)
  verify_at-Refuses (some m) false sig (inr e) = absurd (cc e)

  write_at_refused :
      (o : Option ℕ) (d : Bool) (f : String) (p : Bytes)
      → (d ≡ true) ⊎ (o ≡ none)
      → ((write_at o d f p w).1 ≡ w) × ((e : Error) × ((write_at o d f p w).0 ≡ err e))
  unfolding write_at fail
  write_at_refused none d f p h = (refl, (_, refl))
  write_at_refused (some m) true f p h = (refl, (_, refl))
  write_at_refused (some m) false f p (inl e) = absurd (cc e)
  write_at_refused (some m) false f p (inr e) = absurd (cc e)

  -- the stream of a refusal is the one before
  kept {ℓ} :
      {A : Type ℓ} (m : Result (Result A × Stream) × World) (r : Result A) (t : Stream)
      → Refuses s w m
      → m.0 ≡ ok (r, t)
      → s ≡ t
  kept m r t (q, (e, h)) k = cc (h, k)

close-Finished : (s t : Stream) (w : World) → (close_stream s w).0 ≡ ok t → Finished t
unfolding close_stream
close-Finished s t w h =
    inr (
      let e : record s { mdctx = none; pkey = none } ≡ t = cc in subst (λ u. u.mdctx ≡ none) e refl)

Step-Finished : (s t : Stream) → Finished s → Step s t → Finished t
unfolding sign_stream verify_stream
Step-Finished s t f (signs t' w r h) =
    subst Finished (kept s w (sign_stream s w) r t (sign_at-Refuses s w s.mdctx s.done f) h) f
Step-Finished s t f (verifies t' w sig r h) =
    subst Finished
      (kept s w (verify_stream s sig w) r t (verify_at-Refuses s w s.mdctx s.done sig f) h) f
Step-Finished s t f (closes t' w h) = close-Finished s t w h

Reaches-Finished : {s t : Stream} → Finished s → Reaches s t → Finished t
Reaches-Finished f here = f
Reaches-Finished f (step p q) = Step-Finished _ _ (Reaches-Finished f p) q

after_sign-Finished :
    (s t : Stream) (w : World) (o : Option ℕ) (d : Bool) (sig : Bytes)
    → (sign_at o d s w).0 ≡ ok (ok sig, t)
    → Finished t
unfolding sign_at
after_sign-Finished s t w none d sig h = absurd (unfold pure in cc h)
after_sign-Finished s t w (some m) true sig h = absurd (unfold pure in cc h)
after_sign-Finished s t w (some m) false sig h =
    (Ensures-bind (attempt (sized_call "EVP_DigestSignFinal" (ptr m ∷ []) [])) _ finishes).at w
      (ok sig, t) h sig refl
  where
    finishes :
        (r : Result Bytes)
        → Ensures
            (λ (q : Result Bytes × Stream). (x : Bytes) → q.0 ≡ ok x → Finished q.1)
            (pure (r, after_sign s r))
    finishes (ok x) = Ensures-pure _ (λ y e. inl refl)
    finishes (err x) = Ensures-pure _ (λ y e. absurd (cc e))
    finishes (panic x) = Ensures-pure _ (λ y e. absurd (cc e))

-- A signer signs once: after `sign_stream` has returned a signature, whatever methods are called and
-- whatever libcrypto answers them, every later `sign_stream` and `write_stream` ends in an error, and
-- neither makes a call of libcrypto nor changes anything.
pub signs_once :
    (s t u : Stream) (w v : World) (sig p : Bytes) (f : String)
    → (sign_stream s w).0 ≡ ok (ok sig, t)
    → Reaches t u
    → Refuses u v (sign_stream u v)
      × (((write_stream f u p v).1 ≡ v) × ((e : Error) × ((write_stream f u p v).0 ≡ err e)))
unfolding sign_stream write_stream
signs_once s t u w v sig p f h r =
    let q = Reaches-Finished (after_sign-Finished s t w s.mdctx s.done sig h) r in
    (sign_at-Refuses u v u.mdctx u.done q, write_at_refused u v u.mdctx u.done f p q)

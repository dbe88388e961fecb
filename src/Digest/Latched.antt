-- ===== src/Digest/Latched.antt =====
-- What the digest of one call was told by libcrypto (ossl/digest.go): `Sum` latches its error, and
-- `Digest` does not pass over it.
use ossl_go.Prelude.{
  ℕ, ◌≡◌, refl, Bytes, Bool, true, false, String, List, [], ◌∷◌, Option, none, some, if◌then◌else◌,
  length, ◌==◌, ◌⊎◌, inl, inr,
}
use ossl_go.Prelude.Int.{pos}
use ossl_go.Errors.{Result, Error, ok, err, panic}
use ossl_go.Cgo.{
  World, Go, Arg, Reply, ptr, bytes, pure, fail, abort, ◌>>=◌, ◌>>◌, attempt, attempt_result,
  call_one, owning, give_back, acquire_or, acquire, release,
}
use ossl_go.Cgo.Trace.{
  Asked, Asked-before, Later, Later-refl, Later-trans, release-Later, Extends, Extends-bind,
  Extends-pure, Extends-call_one, Extends-acquire, Extends-or_new_error, extends_rules,
}
use ossl_go.Cgo.Confirms.{
  Confirms, Confirms-fail, Confirms-abort, Confirms-bind, Confirms-bind_left, Confirms-call_one,
  Confirms-deferred, Confirms-using, Confirms-weaken,
}
use ossl_go.Context.{Context, default}
use ossl_go.Digest.{
  Hash, new_hash, latching, put_at, write_hash, digest_of, sum_at, appended, sum, release_some,
  close_hash, closing, unless_latched, summed, after_write, digest,
}

given_back-Later :
    {A : Type 0} (free : String) (a : ℕ) (r : Result A) (v w : World)
    → Later v w
    → Later v (give_back free a r w)
given_back-Later free a (ok x) v w l = l
given_back-Later free a (err e) v w l = Later-trans l (release-Later free a w)
given_back-Later free a (panic s) v w l = l

owning-Extends :
    {A : Type 0} (free : String) (a : ℕ) (m : Go A) → Extends m → Extends (owning free a m)
unfolding owning release
owning-Extends free a m e = record { at = λ w. given_back-Later free a (m w).0 w (m w).1 (e.at w) }

acquire_or-Extends : (f : String) (args : List Arg) (op : String) → Extends (acquire_or f args op)
unfolding acquire_or
acquire_or-Extends f args op =
    Extends-bind (acquire f args) _ (Extends-acquire f args) (Extends-or_new_error op)

new_hash-Extends : (c : Option Context) (name : String) → Extends (new_hash c name)
unfolding new_hash
new_hash-Extends none name = search extends_rules
new_hash-Extends (some c) name = search (extends_rules, owning-Extends, acquire_or-Extends) depth 20

released-Later :
    (f : String) (o : Option ℕ) (v w : World) → Later v w → Later v (release_some f o w)
released-Later f none v w l = l
released-Later f (some a) v w l = Later-trans l (release-Later f a w)

closing-Later : (h : Hash) (w : World) → Later w (closing h w)
unfolding close_hash
closing-Later h w =
    released-Later "EVP_MD_free" h.md w _
      (released-Later "EVP_MD_CTX_free" h.ctx w w (Later-refl w))

-- A call of `f` was answered 1.
abbrev pub Succeeded : List Arg → Reply → Type 0
Succeeded args r = r.rc ≡ pos 1

digest_of-Confirms : (c : ℕ) → Confirms "EVP_DigestFinal_ex" Succeeded (digest_of c)
unfolding digest_of
digest_of-Confirms c = Confirms-using _ _ _ _ _ λ tmp.
    Confirms-bind _ _ (Extends-call_one _ _ _) λ r.
      Confirms-bind_left _ _ (Confirms-weaken _ (λ args r q. q.1) (Confirms-call_one _ _ _))
        λ x. search extends_rules

sum_at-Confirms : (o : Option ℕ) (x : Bool) → Confirms "EVP_DigestFinal_ex" Succeeded (sum_at o x)
sum_at-Confirms none x = Confirms-fail _
sum_at-Confirms (some c) true = Confirms-fail _
sum_at-Confirms (some c) false = digest_of-Confirms c

unless_latched-Extends : (s : Bytes) (o : Option Error) → Extends (unless_latched s o)
unless_latched-Extends s none = Extends-pure s
unless_latched-Extends s (some e) = search extends_rules

module _ {fn : String} {P : List Arg → Reply → Type 0} where
  -- an error that is latched is the error of the whole
  found_of_sum :
      (h : Hash) (b : Bytes) (r : Result Bytes) (w v : World) (s : Bytes)
      → ((((λ (_ : World). (attempt_result r, v)) >>= latching h >>= appended b) >>= summed) w).0
        ≡ ok s
      → ((a : Bytes) → r ≡ ok a → Asked w.lib fn P w.trace v.trace)
      → Asked w.lib fn P w.trace
          ((((λ (_ : World). (attempt_result r, v)) >>= latching h >>= appended b) >>= summed)
            w).1.trace
  unfolding ◌>>=◌ pure fail abort
  found_of_sum h b (ok a) w v s e k =
      Asked-before (k a refl) ((unless_latched-Extends _ h.latch).at v).trace
  found_of_sum h b (err x) w v s e k = absurd (cc e)
  found_of_sum h b (panic x) w v s e k = absurd (cc e)

  sum-Confirms :
      (h : Hash) (b : Bytes)
      → Confirms fn P (sum_at h.ctx h.xof)
      → Confirms fn P (sum h b >>= summed)
  unfolding sum ◌>>=◌ attempt
  sum-Confirms h b c = record {
    at = λ w s e. let m = sum_at h.ctx h.xof w in found_of_sum h b m.0 w m.1 s e λ a q. c.at w a q;
  }

  after_write-Confirms :
      (k : Hash → Go Bytes)
      → ((h : Hash) → Confirms fn P (k h))
      → (r : Result ℕ × Hash) → Confirms fn P (after_write k r)
  after_write-Confirms k c (ok n, h) = c h
  after_write-Confirms k c (err e, h) = Confirms-fail e
  after_write-Confirms k c (panic x, h) = Confirms-abort x

  -- and so is the error of `Write`
  found_of_write :
      (h : Hash) (k : Hash → Go Bytes) (r : Result ℕ) (w v : World) (s : Bytes)
      → ((h' : Hash) → Extends (k h'))
      → (((λ (_ : World). (attempt_result r, v)) >>= latching h >>= after_write k) w).0 ≡ ok s
      → ((a : ℕ) → r ≡ ok a → Asked w.lib fn P w.trace v.trace)
      → Asked w.lib fn P w.trace
          (((λ (_ : World). (attempt_result r, v)) >>= latching h >>= after_write k) w).1.trace
  unfolding ◌>>=◌ pure fail abort
  found_of_write h k (ok a) w v s x e c = Asked-before (c a refl) ((x h).at v).trace
  found_of_write h k (err y) w v s x e c = absurd (cc e)
  found_of_write h k (panic y) w v s x e c = absurd (cc e)

  write-Confirms :
      (h : Hash) (k : Hash → Go Bytes) (m : Go ℕ)
      → ((h' : Hash) → Extends (k h'))
      → Confirms fn P m
      → Confirms fn P (attempt m >>= latching h >>= after_write k)
  unfolding ◌>>=◌ attempt
  write-Confirms h k m x c = record {
    at = λ w s e. found_of_write h k (m w).0 w (m w).1 s x e λ a q. c.at w a q;
  }

latching-Extends : {A : Type 0} (h : Hash) (r : Result A) → Extends (latching h r)
latching-Extends h (ok a) = search extends_rules
latching-Extends h (err e) = search extends_rules
latching-Extends h (panic x) = search extends_rules

put_at-Extends : (o : Option ℕ) (h : Hash) (p : Bytes) → Extends (put_at o h p)
put_at-Extends none h p = search extends_rules
put_at-Extends (some c) h p = search (extends_rules, latching-Extends) depth 12

write_hash-Extends : (h : Hash) (p : Bytes) → Extends (write_hash h p)
unfolding write_hash
write_hash-Extends h p = put_at-Extends h.ctx h p

digest_of-Extends : (c : ℕ) → Extends (digest_of c)
unfolding digest_of
digest_of-Extends c = search extends_rules depth 12

sum_at-Extends : (o : Option ℕ) (x : Bool) → Extends (sum_at o x)
sum_at-Extends none x = search extends_rules
sum_at-Extends (some c) true = search extends_rules
sum_at-Extends (some c) false = digest_of-Extends c

appended-Extends : (b : Bytes) (r : Result Bytes × Hash) → Extends (appended b r)
appended-Extends b (ok s, h) = search extends_rules
appended-Extends b (err e, h) = search extends_rules
appended-Extends b (panic x, h) = search extends_rules

summed-Extends : (r : Bytes × Hash) → Extends (summed r)
summed-Extends (s, h) = unless_latched-Extends s h.latch

rest-Extends : (h : Hash) → Extends (sum h [] >>= summed)
unfolding sum
rest-Extends h =
    search (extends_rules, latching-Extends, sum_at-Extends, appended-Extends, summed-Extends) depth
      12

-- The bytes `p` were handed over, and the answer was 1.
abbrev pub Hashed : Bytes → List Arg → Reply → Type 0
Hashed p args r = ((c : ℕ) × (args ≡ ptr c ∷ bytes p ∷ [])) × (r.rc ≡ pos 1)

filled-Confirms :
    (c : ℕ) (h : Hash) (p : Bytes) (b : Bool)
    → b ≡ false
    → Confirms "EVP_DigestUpdate" (Hashed p) (
        (if b
          then pure (ok 0, h)
          else (attempt (
                call_one "EVP_DigestUpdate" (ptr c ∷ bytes p ∷ []) "EVP_DigestUpdate"
                >> pure (length p))
              >>= latching h))
        >>= after_write λ h'. sum h' [] >>= summed)
filled-Confirms c h p true e = absurd (cc e)
filled-Confirms c h p false e = write-Confirms h _ _ rest-Extends (
    Confirms-bind_left _ _
      (Confirms-weaken _ (λ args r q. ((c, q.0), q.1)) (Confirms-call_one _ _ _))
      λ r. Extends-pure _)

written-Confirms :
    (o : Option ℕ) (h : Hash) (p : Bytes)
    → (length p == 0) ≡ false
    → Confirms "EVP_DigestUpdate"
        (Hashed p)
        (put_at o h p >>= after_write λ h'. sum h' [] >>= summed)
unfolding pure fail ◌>>=◌
written-Confirms none h p e = record { at = λ w s q. absurd (cc q) }
written-Confirms (some c) h p e = filled-Confirms c h p (length p == 0) e

unless_empty : {X : Type 0} (b : Bool) → (b ≡ false → X) → (b ≡ true) ⊎ X
unless_empty true k = inl refl
unless_empty false k = inr (k refl)

-- If Digest returns a digest, then during the call EVP_DigestFinal_ex was answered 1, and, where there
-- are bytes, so was an EVP_DigestUpdate to which all of them were handed over.
pub digest_sound :
    (name : String) (p sum' : Bytes) (w : World)
    → (digest name p w).0 ≡ ok sum'
    → Asked w.lib "EVP_DigestFinal_ex" Succeeded w.trace (digest name p w).1.trace
      × (((length p == 0) ≡ true)
          ⊎ Asked w.lib "EVP_DigestUpdate" (Hashed p) w.trace (digest name p w).1.trace)
unfolding digest write_hash
digest_sound name p sum' w e = (
  (Confirms-bind _ _ (new_hash-Extends (some default) name) λ h.
        Confirms-deferred (closing h) _ (closing-Later h) (
          Confirms-bind _ _ (write_hash-Extends h p)
            (after_write-Confirms _ λ h'. sum-Confirms h' [] (sum_at-Confirms h'.ctx h'.xof)))).at
      w sum' e,
  unless_empty (length p == 0) λ n.
      (Confirms-bind _ _ (new_hash-Extends (some default) name)
          λ h. Confirms-deferred (closing h) _ (closing-Later h) (written-Confirms h.ctx h p n)).at
        w sum' e,
)

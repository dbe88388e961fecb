-- ===== src/Signer/Owned.antt =====
-- The references of a Signer and of a Verifier: their context, and one on the key.
use ossl_go.Prelude.{
  ℕ, refl, arith, Bool, true, false, String, str_eq, List, [], ◌∷◌, ◌++◌, Option, none, some,
  if◌then◌else◌,
}
use ossl_go.Cgo.{World, Go, Arg, null, str, pure, ◌>>=◌, new_error}
use ossl_go.Cgo.Balance.{
  Balanced, Balanced-refuse_if, Balanced-lift, Balanced-clear_errors, Balanced-call_pos,
}
use ossl_go.Cgo.Refs.{Over, Over-release}
use ossl_go.Cgo.Uses.{
  Uses, Uses-pure, Uses-fail, Uses-new_error, Uses-if, Uses-bind, Uses-owning, Uses-Balanced,
  Uses-acquire_or, Uses-up_ref, one_if, Uses-with_cstring, Balanced-Uses,
}
use ossl_go.Key.{Key, Pkey, pkey_of, when_open}
use ossl_go.SignOptions.{SignOptions}
use ossl_go.SignOptions.Balance.{apply_sign_options-Balanced}
use ossl_go.Sign.{with_digest_name}
use ossl_go.Signer.{Stream, take_key, stream_init, new_stream, release_some, close_stream}

taken-Uses :
    (mdctx addr : ℕ) (b : Bool)
    → Uses
        (one_if addr (mdctx ∷ []) b)
        (mdctx ∷ [])
        (λ (u : Unit {0}). addr ∷ mdctx ∷ [])
        (if b then pure tt else new_error "EVP_PKEY_up_ref")
taken-Uses mdctx addr true = Uses-pure tt λ i. refl
taken-Uses mdctx addr false = Uses-new_error _ λ i. refl

take_key-Uses :
    (mdctx addr : ℕ) → Uses (mdctx ∷ []) [] (λ u. addr ∷ mdctx ∷ []) (take_key mdctx addr)
take_key-Uses mdctx addr =
    Uses-owning "EVP_MD_CTX_free" mdctx _
      (Uses-bind _ _ (Uses-up_ref "EVP_PKEY_up_ref" addr) (taken-Uses mdctx addr))

with_digest_name-Uses {ℓ} :
    {A : Type ℓ} {xs ys : List ℕ} {refs : A → List ℕ} (digest : String) (body : Arg → Go A)
    → ((a : Arg) → Uses xs ys refs (body a))
    → Uses xs ys refs (with_digest_name digest body)
unfolding with_digest_name
with_digest_name-Uses digest body p =
    Uses-if (str_eq digest "") _ _ (p null) (Uses-with_cstring digest _ (p (str digest)))

-- the context and the key of a stream, in the order in which `close_stream` gives them back
abbrev both : ℕ × ℕ → List ℕ
both x = x.0 ∷ x.1 ∷ []

when_open-Uses {ℓ} :
    {A : Type ℓ} {refs : A → List ℕ} (o : Option Pkey) (body : Pkey → Go A)
    → ((p : Pkey) → Uses [] [] refs (body p))
    → Uses [] [] refs (when_open o body)
when_open-Uses none body k = Uses-fail _ λ i. refl
when_open-Uses (some p) body k = k p

stream_init-Uses :
    (k : Option Key) (opts : Option SignOptions) (verify : Bool)
    → Uses [] [] both (stream_init k opts verify)
unfolding stream_init
stream_init-Uses k opts verify = when_open-Uses (pkey_of k) _ λ p.
    Uses-bind _ _ (Uses-Balanced _ (Balanced-refuse_if _ _)) λ u.
      Uses-bind _ _ (Uses-Balanced _ (Balanced-lift _)) λ u.
        Uses-bind _ _ (Uses-Balanced _ Balanced-clear_errors) λ u.
          Uses-bind _ _ (Uses-acquire_or _ _ _) λ mdctx.
            Uses-bind _ _ (take_key-Uses mdctx p.addr) λ u. with_digest_name-Uses _ _ λ cd.
              Uses-owning "EVP_MD_CTX_free" mdctx _ (
                Uses-owning "EVP_PKEY_free" p.addr _ (
                  Uses-bind _ _ (Uses-Balanced _ (Balanced-call_pos _ _ _)) λ init.
                    Uses-bind _ _ (Uses-Balanced _ (apply_sign_options-Balanced _ _ _))
                      λ u. Uses-pure (mdctx, p.addr) λ i. ground arith))

abbrev some_ref : Option ℕ → List ℕ
some_ref none = []
some_ref (some a) = a ∷ []

abbrev stream_refs : Stream → List ℕ
stream_refs s = some_ref s.mdctx ++ (some_ref s.pkey ++ [])

new_stream-Uses :
    (k : Option Key) (opts : Option SignOptions) (verify : Bool)
    → Uses [] [] stream_refs (new_stream k opts verify)
unfolding new_stream
new_stream-Uses k opts verify =
    Uses-bind _ _ (stream_init-Uses k opts verify) λ x. Uses-pure _ λ i. refl

release_some-Over :
    (f : String) (o : Option ℕ) (ys : List ℕ) (u w : World)
    → Over u (some_ref o ++ ys) w
    → Over u ys (release_some f o w)
release_some-Over f none ys u w h = h
release_some-Over f (some a) ys u w h = Over-release f h

close_stream-Uses : (s : Stream) → Uses (stream_refs s) [] (λ n. []) (close_stream s)
unfolding close_stream
close_stream-Uses s = record {
  at = λ u w h.
      release_some-Over "EVP_PKEY_free" s.pkey [] u _
        (release_some-Over "EVP_MD_CTX_free" s.mdctx (some_ref s.pkey ++ []) u w h);
}

-- A Signer or Verifier that is made and closed leaves nothing behind: whatever fails, its context is freed
-- and the reference that it took on the key is given back, once.
pub new_stream-close-Balanced :
    (k : Option Key) (opts : Option SignOptions) (verify : Bool)
    → Balanced (new_stream k opts verify >>= close_stream)
new_stream-close-Balanced k opts verify =
    Balanced-Uses _ (Uses-bind _ close_stream (new_stream-Uses k opts verify) close_stream-Uses)

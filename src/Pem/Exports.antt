-- ===== src/Pem/Exports.antt =====
-- What of a key leaves libcrypto.
use ossl_go.Prelude.{
  ℕ, Bytes, Bool, false, not, ◌&&◌, ◌||◌, String, str_eq, List, [], ◌∷◌, Option, none, some, refl,
  length, ◌==◌,
}
use ossl_go.Prelude.Int.{ℤ, pos, negsuc, c_int, eq_ℕ}
use ossl_go.Cgo.{Go, Arg, Call, Reply, num, str, null}
use ossl_go.Cgo.Only.{
  nothing, OnlyCalls, OnlyCalls-pure, OnlyCalls-fail, OnlyCalls-abort, OnlyCalls-if, OnlyCalls-bind,
  OnlyCalls-clear_errors, OnlyCalls-call_one, OnlyCalls-with_block, OnlyCalls-with_cstring,
  OnlyCalls-using,
}
use ossl_go.Context.{Context}
use ossl_go.Key.{Key, Pkey, pkey_of, when_open, own}
use ossl_go.Sign.{slice_to}
use ossl_go.Pem.{
  public_key, public_bytes, go_bytes, encode, marshal_raw, marshal_spki, marshal_spki_pem,
  marshal_raw_public_key, decoded, with_keytype, decode_key, public,
}

abbrev is_public : Arg → Bool
is_public (num z) = eq_ℕ z public_key
is_public _ = false

abbrev of_public : List Arg → Bool
of_public (key ∷ selection ∷ rest) = is_public selection
of_public _ = false

-- The call does not ask for the private part of a key: an encoder is made for the public part alone, and
-- the raw private key is not read.
abbrev pub spares_private : Call → Bool
spares_private c =
    not (str_eq c.fn "EVP_PKEY_get_raw_private_key")
    && (not (str_eq c.fn "OSSL_ENCODER_CTX_new_for_pkey") || of_public c.args)

abbrev Spares {ℓ} : {A : Type ℓ} → Go A → Type 0
Spares m = OnlyCalls spares_private m

when_open-Spares {ℓ} :
    {A : Type ℓ} (o : Option Pkey) (body : Pkey → Go A)
    → ((p : Pkey) → Spares (body p))
    → Spares (when_open o body)
when_open-Spares none body k = OnlyCalls-fail _
when_open-Spares (some p) body k = k p

go_bytes-Spares : (n : ℤ) (size : ℕ) (out : Bytes) → Spares (go_bytes n size out)
go_bytes-Spares (pos n) size out = OnlyCalls-pure _
go_bytes-Spares (negsuc n) size out = OnlyCalls-abort _

encode_public-Spares :
    (k : Option Key) (out_type structure : String) → Spares (encode k public_key out_type structure)
unfolding encode
encode_public-Spares k out_type structure = when_open-Spares (pkey_of k) _ λ p.
    OnlyCalls-bind _ _ OnlyCalls-clear_errors λ u.
      OnlyCalls-with_cstring out_type _ (λ a. refl)
        (OnlyCalls-with_cstring structure _ (λ a. refl)
          (OnlyCalls-using _ _ _ _ _ refl (λ a. refl)
            λ ctx. OnlyCalls-bind _ _ (OnlyCalls-call_one _ _ _ refl) λ r.
              OnlyCalls-with_block _ _ (λ a. refl) (go_bytes-Spares (c_int r.len) r.len r.out)))

slice_to-Spares : (size : ℕ) (r : Reply) → Spares (slice_to size r)
slice_to-Spares size r = OnlyCalls-if _ _ _ (OnlyCalls-abort _) (OnlyCalls-pure _)

raw_public-Spares : (k : Option Key) → Spares (marshal_raw_public_key k)
unfolding marshal_raw
raw_public-Spares k = when_open-Spares (pkey_of k) _ λ p.
    OnlyCalls-bind _ _ OnlyCalls-clear_errors λ u.
      OnlyCalls-bind _ _ (OnlyCalls-call_one _ _ _ refl) λ r.
        OnlyCalls-if (r.len == 0) _ _ (OnlyCalls-pure [])
          (OnlyCalls-bind _ _ (OnlyCalls-call_one _ _ _ refl) (slice_to-Spares r.len))

own-Spares : (r : Reply) → Spares (own r)
own-Spares r = record { at = λ w. nothing }

decoded-Spares :
    (c : Context) (input : Bytes) (in_type structure : String) (selection : ℕ) (kt : Arg)
    → Spares (decoded c input in_type structure selection kt)
decoded-Spares c input in_type structure selection kt =
    OnlyCalls-using _ _ _ _ _ refl (λ a. refl)
      λ dctx.
        OnlyCalls-with_block _ _ (λ a. refl)
          (OnlyCalls-bind _ _ (OnlyCalls-call_one _ _ _ refl)
            λ r. OnlyCalls-bind _ _ (own-Spares r) λ p. OnlyCalls-pure _)

with_keytype-Spares :
    (keytype : String) (body : Arg → Go Key)
    → ((a : Arg) → Spares (body a))
    → Spares (with_keytype keytype body)
with_keytype-Spares keytype body p =
    OnlyCalls-if (str_eq keytype "") _ _ (p null)
      (OnlyCalls-with_cstring keytype _ (λ a. refl) (p (str keytype)))

decode_key-Spares :
    (c : Option Context) (input : Bytes) (in_type structure keytype : String) (selection : ℕ)
    → Spares (decode_key c input in_type structure keytype selection)
unfolding decode_key
decode_key-Spares none input in_type structure keytype selection = OnlyCalls-fail _
decode_key-Spares (some c) input in_type structure keytype selection =
    OnlyCalls-if (length input == 0) _ _ (OnlyCalls-fail _) (
      OnlyCalls-bind _ _ OnlyCalls-clear_errors λ u.
        OnlyCalls-with_cstring in_type _ (λ a. refl)
          (OnlyCalls-with_cstring structure _ (λ a. refl)
            (with_keytype-Spares keytype (decoded c input in_type structure selection)
              (decoded-Spares c input in_type structure selection))))

public-Spares : (k : Option Key) → Spares (public k)
unfolding public
public-Spares k =
    when_open-Spares (pkey_of k) (λ p. public_bytes k)
      λ p. OnlyCalls-bind _ _ (encode_public-Spares k _ _) λ b. decode_key-Spares _ b _ _ _ _

-- Taking the public half of a key, and exporting its public part in any form, never asks libcrypto for
-- the private part of a key, whatever it answers.
pub public-spares_private :
    (k : Option Key)
    → (OnlyCalls spares_private (public k) × OnlyCalls spares_private (marshal_raw_public_key k))
      × (OnlyCalls spares_private (marshal_spki k) × OnlyCalls spares_private (marshal_spki_pem k))
public-spares_private k = (
  (public-Spares k, raw_public-Spares k),
  (encode_public-Spares k _ _, encode_public-Spares k _ _),
)

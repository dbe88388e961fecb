-- ===== src/Pem/Owned.antt =====
-- The references of ossl/pkey_pem.go.
use ossl_go.Prelude.{ℕ, Bytes, String, str_eq, [], Option, none, some, refl, length, ◌==◌}
use ossl_go.Prelude.Int.{ℤ, pos, negsuc, eq_ℕ, c_int}
use ossl_go.Cgo.{Go, Arg, str, null, Reply, ◌>>=◌}
use ossl_go.Cgo.Balance.{
  Balanced, Balanced-pure, Balanced-abort, Balanced-call_one, Balanced-with_block, balance_rules,
}
use ossl_go.Cgo.Uses.{
  Uses, Uses-fail, Uses-pure, Uses-if, Uses-bind, Uses-call, Uses-new_error, Uses-using,
  Uses-with_cstring, Uses-with_block, Uses-clear_errors, Uses-Balanced,
}
use ossl_go.Context.{Context}
use ossl_go.Key.{Key, Pkey, pkey_of, when_open, close_key}
use ossl_go.Key.Balance.{Balanced-when_open}
use ossl_go.Key.Refs.{key_refs, own-Uses, Balanced-key}
use ossl_go.Sign.{slice_to}
use ossl_go.Pem.{
  public_bytes, go_bytes, take_data, encode, marshal_raw, from_data, decoded, with_keytype,
  made_key, decode_key, parse_raw, public,
}

go_bytes-Balanced : (n : ℤ) (size : ℕ) (out : Bytes) → Balanced (go_bytes n size out)
go_bytes-Balanced (pos n) size out = Balanced-pure _
go_bytes-Balanced (negsuc n) size out = Balanced-abort _

take_data-Balanced : (r : Reply) → Balanced (take_data r)
take_data-Balanced r = Balanced-with_block _ _ (go_bytes-Balanced (c_int r.len) r.len r.out)

encode-Balanced :
    (k : Option Key) (selection : ℕ) (out_type structure : String)
    → Balanced (encode k selection out_type structure)
unfolding encode
encode-Balanced k selection out_type structure =
    Balanced-when_open (pkey_of k) _ λ p. search (balance_rules, take_data-Balanced) depth 14

slice_to-Balanced : (size : ℕ) (r : Reply) → Balanced (slice_to size r)
slice_to-Balanced size r = search balance_rules

marshal_raw-Balanced : (f : String) (k : Option Key) → Balanced (marshal_raw f k)
unfolding marshal_raw
marshal_raw-Balanced f k =
    Balanced-when_open (pkey_of k) _ λ p. search (balance_rules, slice_to-Balanced) depth 14

made_key-Uses : (c : Context) (r : Reply) → Uses [] [] key_refs (made_key c r)
made_key-Uses c r = Uses-bind _ _ (own-Uses r) λ p. Uses-pure _ λ a. refl

with_keytype-Uses :
    (keytype : String) (body : Arg → Go Key)
    → ((a : Arg) → Uses [] [] key_refs (body a))
    → Uses [] [] key_refs (with_keytype keytype body)
with_keytype-Uses keytype body p =
    Uses-if (str_eq keytype "") _ _ (p null) (Uses-with_cstring keytype _ (p (str keytype)))

from_data-Uses :
    (c : Context) (input : Bytes) (structure : String) (dctx : ℕ)
    → Uses [] [] key_refs (from_data c input structure dctx)
from_data-Uses c input structure dctx =
    Uses-with_block _ _
      (Uses-bind _ _ (Uses-Balanced _ (Balanced-call_one _ _ _)) (made_key-Uses c))

decoded-Uses :
    (c : Context) (input : Bytes) (in_type structure : String) (selection : ℕ) (kt : Arg)
    → Uses [] [] key_refs (decoded c input in_type structure selection kt)
decoded-Uses c input in_type structure selection kt =
    Uses-using _ _ _ _ _ (λ a. refl) (from_data-Uses c input structure)

decode_key-Uses :
    (c : Option Context) (input : Bytes) (in_type structure keytype : String) (selection : ℕ)
    → Uses [] [] key_refs (decode_key c input in_type structure keytype selection)
unfolding decode_key
decode_key-Uses none input in_type structure keytype selection = Uses-fail _ λ a. refl
decode_key-Uses (some c) input in_type structure keytype selection =
    Uses-if (length input == 0) _ _ (Uses-fail _ λ a. refl) (
      Uses-bind _ _ Uses-clear_errors λ u. Uses-with_cstring in_type _ (
        Uses-with_cstring structure _ (
          with_keytype-Uses keytype (decoded c input in_type structure selection)
            (decoded-Uses c input in_type structure selection))))

parse_raw-Uses :
    (f : String) (c : Option Context) (algorithm : String) (raw : Bytes)
    → Uses [] [] key_refs (parse_raw f c algorithm raw)
unfolding parse_raw
parse_raw-Uses f none algorithm raw = Uses-fail _ λ a. refl
parse_raw-Uses f (some c) algorithm raw = Uses-if (length raw == 0) _ _ (Uses-fail _ λ a. refl) (
    Uses-bind _ _ Uses-clear_errors λ u. Uses-with_cstring algorithm _ (
      Uses-bind _ _ (Uses-call _ _)
        λ r. Uses-if (eq_ℕ r.rc 0) _ _ (Uses-new_error _ λ a. refl) (made_key-Uses c r)))

public_of-Uses :
    (k : Option Key) (o : Option Pkey) → Uses [] [] key_refs (when_open o λ p. public_bytes k)
public_of-Uses k none = Uses-fail _ λ a. refl
public_of-Uses k (some p) =
    Uses-bind _ _ (Uses-Balanced _ (encode-Balanced k _ _ _)) λ b. decode_key-Uses _ b _ _ _ _

public-Uses : (k : Option Key) → Uses [] [] key_refs (public k)
unfolding public
public-Uses k = public_of-Uses k (pkey_of k)

-- A key that is decoded, made from raw bytes, or taken as the public half of another key, and then closed,
-- leaves nothing behind, on every path; and no more does encoding a key.
pub decode_key-close-Balanced :
    (c : Option Context) (input : Bytes) (format structure keytype : String) (selection : ℕ)
    (k : Option Key)
    → (Balanced (decode_key c input format structure keytype selection >>= close_key)
        × Balanced (parse_raw structure c keytype input >>= close_key))
      × (Balanced (public k >>= close_key) × Balanced (encode k selection format structure))
decode_key-close-Balanced c input format structure keytype selection k = (
  (
    Balanced-key _ (decode_key-Uses c input format structure keytype selection),
    Balanced-key _ (parse_raw-Uses structure c keytype input),
  ),
  (Balanced-key _ (public-Uses k), encode-Balanced k selection format structure),
)

-- ===== src/Store/Owned.antt =====
-- What a store hands out is freed, but for the key that is returned.
use ossl_go.Prelude.{
  str_eq, ℕ, zero, suc, refl, arith, String, List, [], ◌∷◌, ◌++◌, Option, none, some,
}
use ossl_go.Prelude.Int.{eq_ℕ}
use ossl_go.Cgo.{Go, ◌>>=◌, pure}
use ossl_go.Cgo.Balance.{Balanced, Balanced-call_one, Balanced-abort, Balanced-fail, balance_rules}
use ossl_go.Cgo.Refs.{Over-release}
use ossl_go.Cgo.Uses.{
  Uses, Uses-pure, Uses-fail, Uses-from, Uses-abort, Uses-if, Uses-bind, Uses-call, Uses-new_error,
  Uses-acquire, Uses-using, Uses-with_cstring, Uses-clear_errors, Uses-Balanced, Balanced-Uses,
}
use ossl_go.Context.{Context}
use ossl_go.Key.{Pkey, close_key}
use ossl_go.Key.Refs.{pkey_refs, key_refs, own-Uses, Balanced-key}
use ossl_go.Store.{
  info_pkey, info_pubkey, get1, info_free, key_of_info, next_object, found_or, first_key, as_key,
  load_typed, StoreObjectType, StoreObject, unnamed, named, object_of_info, all_objects, list_store,
}

get1-Uses :
    (f : String) (info : ℕ) → Uses (info ∷ []) [] (λ k. pkey_refs k ++ info ∷ []) (get1 f info)
get1-Uses f info = Uses-bind _ _ (Uses-call _ _) λ r.
    Uses-if _ _ _ (Uses-pure none λ a. refl)
      (Uses-bind _ _ (own-Uses r) λ p. Uses-pure (some p) λ a. refl)

info_free-Uses : (info : ℕ) (xs ys : List ℕ) → Uses (info ∷ xs) ys (λ u. xs) (info_free info)
unfolding info_free
info_free-Uses info xs ys = record { at = λ u w h. Over-release "OSSL_STORE_INFO_free" h }

keep_key-Uses :
    (info : ℕ) (k : Option Pkey)
    → Uses (pkey_refs k ++ info ∷ []) [] pkey_refs (info_free info >>= λ u. pure k)
keep_key-Uses info none = Uses-bind _ _ (info_free-Uses info [] []) λ u. Uses-pure none λ a. refl
keep_key-Uses info (some p) =
    Uses-from (λ a. ground arith)
      (Uses-bind _ _ (info_free-Uses info (p.addr ∷ []) []) λ u. Uses-pure (some p) λ a. refl)

key_of_info-Uses : (info : ℕ) → Uses (info ∷ []) [] pkey_refs (key_of_info info)
unfolding key_of_info
key_of_info-Uses info = Uses-bind _ _ (Uses-call _ _) λ r.
    Uses-bind _ _
      (Uses-if (eq_ℕ r.rc info_pkey) _ _ (get1-Uses "OSSL_STORE_INFO_get1_PKEY" info) (
        Uses-if (eq_ℕ r.rc info_pubkey) _ _ (get1-Uses "OSSL_STORE_INFO_get1_PUBKEY" info)
          (Uses-pure none λ a. refl)))
      (keep_key-Uses info)

module _ {ℓ} {A : Type ℓ} {refs : A → List ℕ} (s : ℕ) (stop : Go A) (one : ℕ → Go A) where
  next_object-Uses :
      Uses [] [] refs stop
      → ((info : ℕ) → Uses (info ∷ []) [] refs (one info))
      → Uses [] [] refs (next_object s stop one)
  unfolding next_object
  next_object-Uses p q = Uses-bind _ _ (Uses-call _ _) λ r. Uses-if _ _ _ p (
      Uses-acquire _ _ _
        (Uses-bind _ _ (Uses-call _ _) λ r. Uses-if _ _ _ p (Uses-new_error _ λ a. refl)) q)

found_or-Uses :
    (rest : Go (Option Pkey)) (o : Option Pkey)
    → Uses [] [] pkey_refs rest
    → Uses (pkey_refs o) [] pkey_refs (found_or rest o)
found_or-Uses rest none p = p
found_or-Uses rest (some k) p = Uses-pure (some k) λ a. refl

first_key-Uses : (n s : ℕ) → Uses [] [] pkey_refs (first_key n s)
unfolding first_key
first_key-Uses zero s = Uses-abort _
first_key-Uses (suc n) s =
    next_object-Uses s _ _ (Uses-pure none λ a. refl)
      λ info. Uses-bind _ _ (key_of_info-Uses info) λ o. found_or-Uses _ o (first_key-Uses n s)

as_key-Uses : (c : Context) (o : Option Pkey) → Uses (pkey_refs o) [] key_refs (as_key c o)
as_key-Uses c none = Uses-fail _ λ a. refl
as_key-Uses c (some p) = Uses-pure _ λ a. refl

load_typed-Uses :
    (n : ℕ) (c : Option Context) (uri : String) (expect : ℕ)
    → Uses [] [] key_refs (load_typed n c uri expect)
unfolding load_typed
load_typed-Uses n none uri expect = Uses-fail _ λ a. refl
load_typed-Uses n (some c) uri expect = Uses-if (str_eq uri "") _ _ (Uses-fail _ λ a. refl) (
    Uses-bind _ _ Uses-clear_errors λ u. Uses-with_cstring uri _ (
      Uses-using _ _ _ _ _ (λ a. refl)
        λ s.
          Uses-bind _ _ (Uses-Balanced _ (Balanced-call_one _ _ _))
            λ r. Uses-bind _ _ (first_key-Uses n s) (as_key-Uses c)))

-- A key that is loaded from a store and then closed leaves nothing behind, on every path: the store,
-- the name and each object that the store handed out are freed.
pub load_typed-close-Balanced :
    (n : ℕ) (c : Option Context) (uri : String) (expect : ℕ)
    → Balanced (load_typed n c uri expect >>= close_key)
load_typed-close-Balanced n c uri expect = Balanced-key _ (load_typed-Uses n c uri expect)

unnamed-Uses : (info : ℕ) (k : StoreObjectType) → Uses (info ∷ []) [] (λ o. info ∷ []) (unnamed k)
unnamed-Uses info k = Uses-pure _ λ a. refl

named-Uses : (info : ℕ) → Uses (info ∷ []) [] (λ o. info ∷ []) (named info)
named-Uses info = Uses-bind _ _ (Uses-call _ _) λ r. Uses-pure _ λ a. refl

object_of_info-Uses : (info : ℕ) → Uses (info ∷ []) [] (λ o. []) (object_of_info info)
unfolding object_of_info
object_of_info-Uses info = Uses-bind _ _ (Uses-call _ _) λ r.
    Uses-bind _ _ (search (Uses-if, unnamed-Uses, named-Uses) depth 12)
      λ o. Uses-bind _ _ (info_free-Uses info [] []) λ u. Uses-pure o λ a. refl

all_objects-Balanced : (n s : ℕ) (out : List StoreObject) → Balanced (all_objects n s out)
unfolding all_objects
all_objects-Balanced zero s out = Balanced-abort _
all_objects-Balanced (suc n) s out = Balanced-Uses _ (
    next_object-Uses s _ _ (Uses-pure out λ a. refl) λ info.
      Uses-bind _ _ (object_of_info-Uses info)
        λ o. Uses-Balanced _ (all_objects-Balanced n s (out ++ o ∷ [])))

-- A listing leaves nothing behind.
pub list_store-Balanced :
    (n : ℕ) (c : Option Context) (uri : String) → Balanced (list_store n c uri)
unfolding list_store
list_store-Balanced n none uri = Balanced-fail _
list_store-Balanced n (some c) uri = search (balance_rules, all_objects-Balanced) depth 14

-- ===== src/Mac/Owned.antt =====
-- A MAC that is made and closed, and the MAC of one call.
use ossl_go.Prelude.{ℕ, refl, Bytes, String, [], Option, none, some}
use ossl_go.Prelude.Int.{ℤ}
use ossl_go.Errors.{Result, Error, ok, err, panic}
use ossl_go.Cgo.{World, Go, ◌>>=◌, deferred}
use ossl_go.Cgo.Balance.{
  SameHeap, UnlessPanic, Balanced, Balanced-bind, Balanced-refuse_if, balance_rules,
}
use ossl_go.Cgo.Refs.{Over, Over-SameHeap}
use ossl_go.Cgo.Uses.{EndsOver, Uses, Uses-fail, Uses-bind, Uses-Balanced, Balanced-Uses}
use ossl_go.Digest.{unless_latched}
use ossl_go.Params.{c}
use ossl_go.Params.Arena.{Builds, Adds, Adds-pure, Builds-new_params, octets-Adds, builds_rules}
use ossl_go.Context.{Context, default}
use ossl_go.Mac.Stream.{
  latching, update_at, write_mac, tag_of, tag_at, appended, sum_mac, closing, summed, after_write,
  hmac_sum,
}
use ossl_go.Mac.{Mac, MacParams, close_mac, octets_if_set, build_mac_params, new_mac, new_hmac}
use ossl_go.Mac.Kept.{mac_refs, close_mac-Over, make_mac-Uses, Uses-Builds}

octets_if_set-Adds : (k : String) (o : Option Bytes) → Adds (octets_if_set k o)
octets_if_set-Adds k none = Adds-pure
octets_if_set-Adds k (some b) = octets-Adds k b

build_mac_params-Builds : (o : Option MacParams) → Builds (build_mac_params o)
unfolding build_mac_params
build_mac_params-Builds none = Builds-new_params
build_mac_params-Builds (some o) = search (builds_rules, octets_if_set-Adds) depth 14

new_mac-Uses :
    (c : Option Context) (algorithm : String) (key : Bytes) (o : Option MacParams)
    → Uses [] [] mac_refs (new_mac c algorithm key o)
unfolding new_mac
new_mac-Uses none algorithm key o = Uses-fail _ λ a. refl
new_mac-Uses (some c) algorithm key o =
    Uses-bind _ _ (Uses-Balanced _ (Balanced-refuse_if _ _)) λ u.
      Uses-bind _ _ (Uses-Balanced _ (Balanced-refuse_if _ _)) λ v.
        Uses-bind _ _ (Uses-Balanced _ (Balanced-refuse_if _ _)) λ x.
          Uses-bind _ _ (Uses-Builds _ (build_mac_params-Builds o))
            λ p. make_mac-Uses (some c) algorithm key p

new_hmac-Uses :
    (c : Option Context) (digest : String) (key : Bytes)
    → Uses [] [] mac_refs (new_hmac c digest key)
unfolding new_hmac
new_hmac-Uses c digest key =
    Uses-bind _ _ (Uses-Builds _ (search builds_rules)) λ p. make_mac-Uses c "HMAC" key p

close_mac-Uses : (m : Mac) → Uses (mac_refs m) [] (λ n. []) (close_mac m)
unfolding close_mac
close_mac-Uses m = record { at = λ u w h. close_mac-Over m u w h }

-- A MAC that is made and closed leaves nothing behind: every error of `new_mac` gives back the
-- algorithm, the context and the whole arena of the parameters, as far as they were acquired, and
-- `close_mac` gives back what a MAC keeps of them.
pub new_mac-close-Balanced :
    (c : Option Context) (algorithm : String) (key : Bytes) (o : Option MacParams)
    → Balanced (new_mac c algorithm key o >>= close_mac)
new_mac-close-Balanced c algorithm key o =
    Balanced-Uses _ (Uses-bind _ _ (new_mac-Uses c algorithm key o) close_mac-Uses)

module _ {ℓ} {A : Type ℓ} where
  closed-Over :
      (u w v : World) (m : Mac) (r : Result A)
      → UnlessPanic r (SameHeap w v)
      → Over u (mac_refs m) w
      → EndsOver u [] (λ x. []) r (close_mac m v).1
  closed-Over u w v m (ok x) s h = close_mac-Over m u v (Over-SameHeap s h)
  closed-Over u w v m (err e) s h = close_mac-Over m u v (Over-SameHeap s h)
  closed-Over u w v m (panic t) s h = tt

  -- `defer m.Close()`
  Uses-closing :
      (m : Mac) (body : Go A)
      → Balanced body
      → Uses (mac_refs m) [] (λ x. []) (deferred (closing m) body)
  unfolding deferred
  Uses-closing m body b = record {
    at = λ u w h. closed-Over u w (body w).1 m (body w).0 (b.at w) h;
  }

latching-Balanced : {A : Type 0} (m : Mac) (r : Result A) → Balanced (latching m r)
latching-Balanced m (ok a) = search balance_rules
latching-Balanced m (err e) = search balance_rules
latching-Balanced m (panic s) = search balance_rules

update_at-Balanced : (o : Option ℕ) (m : Mac) (b : Bytes) → Balanced (update_at o m b)
update_at-Balanced none m b = search balance_rules
update_at-Balanced (some c) m b = search (balance_rules, latching-Balanced) depth 14

tag_at-Balanced : (o : Option ℕ) (size : ℤ) → Balanced (tag_at o size)
unfolding tag_of
tag_at-Balanced none size = search balance_rules
tag_at-Balanced (some c) size = search balance_rules depth 14

appended-Balanced : (b : Bytes) (r : Result Bytes × Mac) → Balanced (appended b r)
appended-Balanced b (ok s, m) = search balance_rules
appended-Balanced b (err e, m) = search balance_rules
appended-Balanced b (panic s, m) = search balance_rules

summed-Balanced : (s : Bytes) (o : Option Error) → Balanced (unless_latched s o)
summed-Balanced s none = search balance_rules
summed-Balanced s (some e) = search balance_rules

after_write-Balanced :
    (k : Mac → Go Bytes)
    → ((m : Mac) → Balanced (k m))
    → (r : Result ℕ × Mac) → Balanced (after_write k r)
after_write-Balanced k b (ok n, m) = b m
after_write-Balanced k b (err e, m) = search balance_rules
after_write-Balanced k b (panic s, m) = search balance_rules

hmac_body-Balanced :
    (m : Mac) (input : Bytes)
    → Balanced (write_mac m input >>= after_write λ m'. sum_mac m' [] >>= summed)
unfolding write_mac sum_mac
hmac_body-Balanced m input = Balanced-bind _ _ (update_at-Balanced m.ctx m input) (
    after_write-Balanced _ λ m'.
      Balanced-bind _ _
        (search (balance_rules, tag_at-Balanced, latching-Balanced, appended-Balanced) depth 14)
        λ r. summed-Balanced r.0 r.1.latch)

-- So does the MAC of one call, whatever its parts end in.
pub hmac_sum-Balanced : (digest : String) (key input : Bytes) → Balanced (hmac_sum digest key input)
unfolding hmac_sum
hmac_sum-Balanced digest key input = Balanced-Uses _ (
    Uses-bind _ _ (new_hmac-Uses (some default) digest key)
      λ m. Uses-closing m _ (hmac_body-Balanced m input))

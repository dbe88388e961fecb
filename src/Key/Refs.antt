-- ===== src/Key/Refs.antt =====
-- The references that a key keeps.
use ossl_go.Prelude.{ℕ, ◌≡◌, refl, arith, List, [], ◌∷◌, Option, none, some}
use ossl_go.Cgo.{World, Go, Reply, ◌>>=◌}
use ossl_go.Cgo.Balance.{Balanced}
use ossl_go.Cgo.Refs.{Over, Over-release}
use ossl_go.Cgo.Uses.{EndsOver, Uses, Uses-bind, Balanced-Uses}
use ossl_go.Key.{Key, Pkey, own, close_key}

abbrev pub pkey_refs : Option Pkey → List ℕ
pkey_refs none = []
pkey_refs (some p) = p.addr ∷ []

abbrev pub key_refs : Key → List ℕ
key_refs k = pkey_refs k.pkey

pub own-Uses : {xs ys : List ℕ} (r : Reply) → Uses xs ys (λ p. p.addr ∷ xs) (own r)
own-Uses r = record { at = λ u w h. record { live = λ i. ground (arith, h.live i); bad = h.bad } }

closed-Over :
    (u w : World) (k : Key) (o : Option Pkey)
    → k.pkey ≡ o
    → Over u (pkey_refs o) w
    → EndsOver u []
        (λ k. [])
        (close_key (record k { pkey = o }) w).0
        (close_key (record k { pkey = o }) w).1
unfolding close_key
closed-Over u w k none e h = h
closed-Over u w k (some p) e h = Over-release "EVP_PKEY_free" h

close_key-Uses : (k : Key) → Uses (key_refs k) [] (λ k. []) (close_key k)
close_key-Uses k = record { at = λ u w h. closed-Over u w k k.pkey refl h }

-- What makes a key, and then closes it, is balanced.
pub Balanced-key : (m : Go Key) → Uses [] [] key_refs m → Balanced (m >>= close_key)
Balanced-key m p = Balanced-Uses _ (Uses-bind m close_key p close_key-Uses)

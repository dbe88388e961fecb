-- ===== src/Params/Calls.antt =====
-- The builder's methods only add calls to the trace.
use ossl_go.Prelude.{ℕ, ◌≡◌, Bytes, String, List, [], ◌∷◌, Option, none, some}
use ossl_go.Prelude.Int.{ℤ}
use ossl_go.Errors.{ok}
use ossl_go.Cgo.{World, Go, Arg, Reply}
use ossl_go.Cgo.Returns.{Ensures, Ensures-bind, Ensures-deferred}
use ossl_go.Cgo.Trace.{
  Later, Later-refl, Later-trans, Extends, Extends-abort, Extends-pure, Extends-deferred,
  Extends-bind, extends_rules, release-Later,
}
use ossl_go.Cgo.Confirms.{Confirms, Confirms-bind_of, Confirms-deferred}
use ossl_go.Params.{
  Builder, new_params, keep, alloc, cstr, cbytes, utf8, octets, int, uint, size_t, octets_nil_data,
  c, free, release_all, with_params,
}

keep-Extends : (p : Builder) (o : Option ℕ) → Extends (keep p o)
keep-Extends p none = Extends-abort _
keep-Extends p (some q) = Extends-pure _

alloc-Extends : (n : ℤ) (p : Builder) → Extends (alloc n p)
unfolding alloc
alloc-Extends n p = search (extends_rules, keep-Extends)

cstr-Extends : (s : String) (p : Builder) → Extends (cstr s p)
unfolding cstr
cstr-Extends s p = alloc-Extends _ p

cbytes-Extends : (b : Bytes) (p : Builder) → Extends (cbytes b p)
unfolding cbytes
cbytes-Extends b p = alloc-Extends _ p

ruleset alloc_rules = (extends_rules, alloc-Extends, cstr-Extends, cbytes-Extends)

pub new_params-Extends : Extends new_params
unfolding new_params
new_params-Extends = Extends-pure _

pub utf8-Extends : (k v : String) (p : Builder) → Extends (utf8 k v p)
unfolding utf8
utf8-Extends k v p = search alloc_rules

pub octets-Extends : (k : String) (b : Bytes) (p : Builder) → Extends (octets k b p)
unfolding octets
octets-Extends k b p = search alloc_rules

pub int-Extends : (k : String) (v : ℤ) (p : Builder) → Extends (int k v p)
unfolding int
int-Extends k v p = search alloc_rules

pub uint-Extends : (k : String) (v : ℕ) (p : Builder) → Extends (uint k v p)
unfolding uint
uint-Extends k v p = search alloc_rules

pub size_t-Extends : (k : String) (v : ℤ) (p : Builder) → Extends (size_t k v p)
unfolding size_t
size_t-Extends k v p = search alloc_rules

pub octets_nil_data-Extends : (k : String) (n : ℤ) (p : Builder) → Extends (octets_nil_data k n p)
unfolding octets_nil_data
octets_nil_data-Extends k n p = search alloc_rules

pub c-Extends : (p : Builder) → Extends (c p)
unfolding c
c-Extends p = search extends_rules

release_all-Later : (qs : List ℕ) (w : World) → Later w (release_all qs w)
unfolding release_all
release_all-Later [] w = Later-refl w
release_all-Later (q ∷ qs) w = Later-trans (release-Later "free" q w) (release_all-Later qs _)

pub free-Later : (p : Builder) (w : World) → Later w (free p w).1
unfolding free
free-Later p w = release_all-Later p.arena w

pub ruleset params_extend = (
  new_params-Extends, utf8-Extends, octets-Extends, int-Extends, uint-Extends, size_t-Extends,
  octets_nil_data-Extends, c-Extends,
)

pub Extends-with_params {ℓ} :
    {A : Type ℓ} (build : Go Builder) (body : Builder → Go A)
    → Extends build
    → ((p : Builder) → Extends (body p))
    → Extends (with_params build body)
unfolding with_params
Extends-with_params build body b k =
    Extends-bind build _ b λ p. Extends-deferred _ (body p) (free-Later p) (k p)

module _ {ℓ} {A : Type ℓ} {fn : String} {P : List Arg → Reply → Type 0} where
  pub Confirms-with_params :
      (build : Go Builder) (body : Builder → Go A)
      → Extends build
      → ((w : World) (p : Builder) → (build w).0 ≡ ok p → Confirms fn P (body p))
      → Confirms fn P (with_params build body)
  unfolding with_params
  Confirms-with_params build body e k =
      Confirms-bind_of build _ e λ w p h. Confirms-deferred _ (body p) (free-Later p) (k w p h)

module _ {ℓ κ} {A : Type ℓ} {Q : A → Type κ} where
  pub Ensures-with_params :
      (build : Go Builder) (body : Builder → Go A)
      → ((p : Builder) → Ensures Q (body p))
      → Ensures Q (with_params build body)
  unfolding with_params
  Ensures-with_params build body k = Ensures-bind build _ λ p. Ensures-deferred _ (body p) (k p)

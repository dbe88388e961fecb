-- ===== src/Fips.antt =====
-- ossl/fips.go, and the end of a context (ossl/libctx.go), which undoes it.
pub mod Enabled
pub mod Tests
use ossl_go.Prelude.{
  ℕ, Bool, true, false, String, str_append, List, [], ◌∷◌, Option, none, some, if◌then◌else◌,
}
use ossl_go.Prelude.Int.{pos, eq_ℕ}
use ossl_go.Errors.{Error, Result, ok, err, panic, closed, wrapped, refused, fips_needs_context}
use ossl_go.Cgo.{
  World, Go, num, str, ptr, pure, fail, ◌>>=◌, ◌>>◌, call, call_one, release, with_cstring,
  clear_errors, new_error,
}
use ossl_go.Context.{Context, Provider, context_ptr, new_context}
use ossl_go.Provider.{load_provider, unload}

-- `if err := m(); err != nil { cleanup(); return err }`
abbrev pub cleaned {ℓ κ} : {A : Type ℓ} {B : Type κ} → Go B → Result A × World → Result A × World
cleaned cleanup (ok a, w) = (ok a, w)
cleaned cleanup (err e, w) = (err e, (cleanup w).1)
cleaned cleanup (panic s, w) = (panic s, w)

unfoldable pub on_error {ℓ κ} : {A : Type ℓ} {B : Type κ} → Go A → Go B → Go A
on_error m cleanup w = cleaned cleanup (m w)

-- `if err != nil { return fmt.Errorf("...: %w", err) }`
abbrev pub wrap_result {ℓ} : {A : Type ℓ} → Result A × World → Result A × World
wrap_result (err e, w) = (err (wrapped e), w)
wrap_result r = r

unfoldable pub wrap_error {ℓ} : {A : Type ℓ} → Go A → Go A
wrap_error m w = wrap_result (m w)

unfoldable pub load_config : Option Context → String → Go (Unit {0})
load_config none path = fail closed
load_config (some c) path = do
  clear_errors
  with_cstring path do
    call_one "OSSL_LIB_CTX_load_config" (context_ptr (some c) ∷ str path ∷ [])
        (str_append "OSSL_LIB_CTX_load_config(" (str_append path ")"))
    pure tt

abbrev pub self_test_at : Option ℕ → Go (Unit {0})
self_test_at none = fail closed
self_test_at (some a) = do
  clear_errors
  call_one "OSSL_PROVIDER_self_test" (ptr a ∷ []) "OSSL_PROVIDER_self_test"
  pure tt

unfoldable pub self_test : Provider → Go (Unit {0})
self_test p = self_test_at p.prov

-- `EnableFIPS` after the test of its receiver: the context that it leaves.
unfoldable pub switch_fips : Context → String → Go Context
switch_fips c path = do
  load_config (some c) path
  prov ← wrap_error (load_provider (some c) "fips")
  on_error (self_test prov) (unload prov)
  clear_errors
  r ← call "EVP_default_properties_enable_fips" (context_ptr (some c) ∷ num (pos 1) ∷ [])
  if eq_ℕ r.rc 1
      then pure (record c { fips = some prov })
      else (unload prov >>= λ u. new_error "EVP_default_properties_enable_fips")

abbrev pub enable_at : Context → String → Option ℕ → Go Context
enable_at c path none = fail (refused fips_needs_context)
enable_at c path (some a) = switch_fips c path

unfoldable pub enable_fips : Option Context → String → Go Context
enable_fips none path = fail (refused fips_needs_context)
enable_fips (some c) path = enable_at c path c.ctx

-- `c.FIPSEnabled()`
unfoldable pub fips_enabled : Option Context → Go Bool
fips_enabled none = pure false
fips_enabled (some c) = do
  r ← call "EVP_default_properties_is_fips_enabled" (context_ptr (some c) ∷ [])
  pure (eq_ℕ r.rc 1)

abbrev pub unload_fips : Option Provider → Go (Unit {0})
unload_fips none = pure tt
unload_fips (some p) = unload p >> pure tt

abbrev pub free_context : Option ℕ → World → World
free_context none w = w
free_context (some a) w = release "OSSL_LIB_CTX_free" a w

-- `c.Close()` of a context that is not nil: the provider first, then the context.
unfoldable pub close_context : Context → Go Context
close_context c w =
    (ok (record c { ctx = none; fips = none }), free_context c.ctx (unload_fips c.fips w).1)

unfoldable pub new_fips_context : String → Go Context
new_fips_context path = do c ← new_context; on_error (enable_fips (some c) path) (close_context c)

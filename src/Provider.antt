-- ===== src/Provider.antt =====
-- ossl/provider.go: loading a provider, giving it up, and asking whether one is active. A provider
-- is a record with its reference; none is one that `Unload` has given up.
pub mod Infos
pub mod Tests
use ossl_go.Prelude.{
  ℕ, Bool, true, false, String, str_append, [], ◌∷◌, ◌++◌, Option, none, some, if◌then◌else◌,
}
use ossl_go.Prelude.Int.{pos, eq_ℕ}
use ossl_go.Errors.{Result, ok, closed}
use ossl_go.Cgo.{
  Go, Reply, num, str, ptr, pure, fail, lift, ◌>>=◌, ◌>>◌, attempt, call, acquire, release,
  with_cstring, clear_errors, new_error,
}
use ossl_go.Context.{Context, Provider, context_ptr}

-- `OSSL_PROVIDER_unload`, which takes the reference back and answers.
unfoldable pub give_up : ℕ → Go Reply
unfolding release
give_up a w =
    let r = w.lib w.trace (record { fn = "OSSL_PROVIDER_unload"; args = ptr a ∷ [] }) in
    (ok r, record (release "OSSL_PROVIDER_unload" a w) { queue = w.queue ++ r.errs })

-- `c.providerAvailable(name)`
unfoldable pub available : Context → String → Go Bool
available c name =
    with_cstring name do
      r ← call "OSSL_PROVIDER_available" (context_ptr (some c) ∷ str name ∷ [])
      pure (eq_ℕ r.rc 1)

-- `c.ProviderAvailable(name)`
unfoldable pub provider_available : Option Context → String → Go Bool
provider_available none name = pure false
provider_available (some c) name = available c name

abbrev pub give_up_some : Option ℕ → Go (Unit {0})
give_up_some none = pure tt
give_up_some (some a) = give_up a >> pure tt

-- After a failed load: the implicit default provider is turned on again, if it was on.
unfoldable pub restore_default : Context → Bool → Go (Unit {0})
restore_default c false = pure tt
restore_default c true = do
  now ← available c "default"
  if now
      then pure tt
      else (with_cstring "default" do
        p ←
            acquire "OSSL_PROVIDER_try_load"
              (context_ptr (some c) ∷ str "default" ∷ num (pos 1) ∷ [])
        give_up_some p
        clear_errors)

abbrev pub loaded : Context → String → Bool → Option ℕ → Go Provider
loaded c name had_default (some a) = pure (record { prov = some a })
loaded c name had_default none = do
  e ← attempt (new_error {A = Provider} (str_append "OSSL_PROVIDER_load(" (str_append name ")")))
  restore_default c had_default
  lift e

unfoldable pub load_provider : Option Context → String → Go Provider
load_provider none name = fail closed
load_provider (some c) name = do
  clear_errors
  with_cstring name do
    had_default ← available c "default"
    p ← acquire "OSSL_PROVIDER_load" (context_ptr (some c) ∷ str name ∷ [])
    loaded c name had_default p

abbrev pub unloaded : Reply → Go (Unit {0})
unloaded r = if eq_ℕ r.rc 1 then pure tt else new_error "OSSL_PROVIDER_unload"

-- `p.Unload()` of a provider that is not nil: its result, and the provider that it leaves.
abbrev pub unload_at : Option ℕ → Go (Result (Unit {0}) × Provider)
unload_at none = pure (ok tt, record { prov = none })
unload_at (some a) = do r ← give_up a; e ← attempt (unloaded r); pure (e, record { prov = none })

unfoldable pub unload : Provider → Go (Result (Unit {0}) × Provider)
unload p = unload_at p.prov

-- ===== src/Context.antt =====
-- ossl/libctx.go, and the provider and FIPS parts of ossl/provider.go and ossl/fips.go. A receiver is
-- an `Option`: none is the nil pointer. A method that changes its receiver returns it anew.
use ossl_go.Prelude.{ℕ, String, List, [], ◌∷◌, Option, none, some}
use ossl_go.Errors.{Error, closed}
use ossl_go.Cgo.{
  Go, Arg, str, ptr, null, pure, fail, ◌>>=◌, ◌>>◌, acquire, with_cstring, new_error, clear_errors,
  call_one,
}

-- A loaded provider; none is a reference that `Unload` has given up.
pub record Provider : Type 0 where
  pub prov : Option ℕ

-- `ctx` is none for the default context, whose pointer is NULL. `probes` is the memo of ossl/capability.go.
pub record Context : Type 0 where
  pub ctx : Option ℕ
  pub fips : Option Provider
  pub probes : List (String × Option Error)

abbrev pub default : Context
default = record { ctx = none; fips = none; probes = [] }

abbrev pub handle : Option ℕ → Arg
handle none = null
handle (some a) = ptr a

-- `c.ptr()`
abbrev pub context_ptr : Option Context → Arg
context_ptr none = null
context_ptr (some c) = handle c.ctx

abbrev pub made : Option ℕ → Go Context
made none = new_error "OSSL_LIB_CTX_new"
made (some a) = pure (record { ctx = some a; fips = none; probes = [] })

-- `NewContext()`
unfoldable pub new_context : Go Context
unfolding pure ◌>>=◌
new_context = do clear_errors; ctx ← acquire "OSSL_LIB_CTX_new" []; made ctx

unfoldable pub set_default_properties : Option Context → String → Go (Unit {0})
unfolding pure fail ◌>>=◌
set_default_properties none propq = fail closed
set_default_properties (some c) propq = do
  clear_errors
  with_cstring propq do
    call_one "EVP_set_default_properties" (handle c.ctx ∷ str propq ∷ [])
        "EVP_set_default_properties"
    pure tt

-- ===== src/Provider/Infos.antt =====
-- Providers of ossl/provider.go: what is loaded into a context. The callback, in C, fills an array of 64
-- places with the providers' addresses, and drops what does not fit.
use ossl_go.Prelude.{
  ℕ, ◌<◌, ◌≤◌, arith, Bool, not, String, List, [], ◌∷◌, ◌++◌, Option, none, some, ltb, leb, ◌==◌,
  length, length-append, if◌then◌else◌, ◌≡◌, refl, ◌∙◌, ap,
}
use ossl_go.Errors.{closed, refused, too_many_providers}
use ossl_go.Cgo.{
  Go, Param, ptr, params, utf8_string, int_value, end_mark, pure, fail, ◌>>=◌, ◌>>◌, call_one,
  clear_errors,
}
use ossl_go.Context.{Context, context_ptr}

pub record ProviderInfo : Type 0 where
  pub name : String
  pub version : String
  pub active : Bool

abbrev pub max_providers : ℕ
max_providers = 64

-- `ossl_collect_provider`, and the iterator that calls it for each provider
abbrev pub put_provider : List ℕ → ℕ → List ℕ
put_provider list p = if ltb (length list) max_providers then list ++ p ∷ [] else list

unfoldable pub collect_providers : List ℕ → List ℕ → List ℕ
collect_providers list [] = list
collect_providers list (p ∷ ps) = collect_providers (put_provider list p) ps

-- The three OSSL_PARAM of `ossl_provider_info`, and the end.
abbrev info_params : List Param
info_params =
    record { key = "name"; value = utf8_string ""; refs = [] }
    ∷ record { key = "version"; value = utf8_string ""; refs = [] }
    ∷ record { key = "status"; value = int_value 0; refs = [] }
    ∷ record { key = ""; value = end_mark; refs = [] }
    ∷ []

-- `ossl_provider_info(prov, &name, &version, &status)` with its check
unfoldable pub provider_info : ℕ → Go ProviderInfo
provider_info prov = do
  r ←
      call_one "OSSL_PROVIDER_get_params" (ptr prov ∷ params info_params ∷ [])
        "OSSL_PROVIDER_get_params"
  pure (record { name = r.text; version = r.text2; active = not (r.len == 0) })

unfoldable pub provider_infos : List ℕ → Go (List ProviderInfo)
unfolding provider_info
provider_infos [] = pure []
provider_infos (p ∷ ps) = do i ← provider_info p; rest ← provider_infos ps; pure (i ∷ rest)

-- `c.Providers()`
unfoldable pub providers : Option Context → Go (List ProviderInfo)
unfolding collect_providers provider_infos
providers none = fail closed
providers (some c) = do
  clear_errors
  r ← call_one "OSSL_PROVIDER_do_all" (context_ptr (some c) ∷ []) "OSSL_PROVIDER_do_all"
  if leb max_providers (length (collect_providers [] r.out))
      then fail (refused too_many_providers)
      else provider_infos (collect_providers [] r.out)

put-whole :
    (list : List ℕ) (p : ℕ) → length list < max_providers → put_provider list p ≡ list ++ p ∷ []
put-whole list p h = ground (arith, h)

length-put : (list : List ℕ) (p : ℕ) → length list ≤ length (put_provider list p)
length-put list p = ground (arith, length-append list (p ∷ []))

length-collect_providers : (list ps : List ℕ) → length list ≤ length (collect_providers list ps)
unfolding collect_providers
length-collect_providers list [] = omega arith
length-collect_providers list (p ∷ ps) =
    omega (arith, length-put list p, length-collect_providers (put_provider list p) ps)

append_nil : (xs : List ℕ) → xs ≡ xs ++ []
append_nil [] = refl
append_nil (x ∷ xs) = ap (λ ys. x ∷ ys) (append_nil xs)

append_one : (xs : List ℕ) (p : ℕ) (ps : List ℕ) → (xs ++ p ∷ []) ++ ps ≡ xs ++ p ∷ ps
append_one [] p ps = refl
append_one (x ∷ xs) p ps = ap (λ ys. x ∷ ys) (append_one xs p ps)

-- A list that is not full is the whole list, so that Providers never reports a part.
pub collect_providers_whole :
    (list ps : List ℕ)
    → length (collect_providers list ps) < max_providers
    → collect_providers list ps ≡ list ++ ps
unfolding collect_providers
collect_providers_whole list [] h = append_nil list
collect_providers_whole list (p ∷ ps) h =
    let room : length list < max_providers =
      omega (arith, h, length-put list p, length-collect_providers (put_provider list p) ps) in
    collect_providers_whole (put_provider list p) ps h
    ∙ (ap (λ xs. xs ++ ps) (put-whole list p room) ∙ append_one list p ps)

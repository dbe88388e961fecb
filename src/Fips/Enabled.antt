-- ===== src/Fips/Enabled.antt =====
-- What a FIPS context that was made was told by libcrypto (ossl/fips.go): the self-test passed, and
-- the restriction to the validated module was accepted.
use ossl_go.Prelude.{
  ℕ, arith, ◌≡◌, Bool, true, false, String, List, [], ◌∷◌, Option, none, some, if◌then◌else◌, subst,
  sym,
}
use ossl_go.Prelude.Int.{pos}
use ossl_go.Errors.{Result, ok, err, panic}
use ossl_go.Cgo.{World, Go, Arg, Reply, num, ptr, pure, ◌>>=◌, release, new_error}
use ossl_go.Cgo.Trace.{
  Grows, more, same, Asked, Later, Later-trans, Extends, Extends-bind, Extends-pure, Extends-fail,
  Extends-call, Extends-new_error, Extends-acquire, Extends-clear_errors, extends_rules,
}
use ossl_go.Cgo.Confirms.{
  Confirms, Confirms-fail, Confirms-new_error, Confirms-bind, Confirms-bind_left, Confirms-call_one,
  Confirms-checked, Confirms-weaken,
}
use ossl_go.Context.{Context, Provider, new_context, made}
use ossl_go.Provider.{
  give_up, available, give_up_some, restore_default, loaded, load_provider, unloaded, unload_at,
  unload,
}
use ossl_go.Fips.{
  enable_at, cleaned, on_error, wrap_result, wrap_error, load_config, self_test_at, self_test,
  switch_fips, enable_fips, new_fips_context,
}

the_call :
    (a : ℕ) (w : World)
    → (give_up a w).1.trace ≡ record { fn = "OSSL_PROVIDER_unload"; args = ptr a ∷ [] } ∷ w.trace
unfolding give_up release
the_call a w = ground arith

give_up-Extends : (a : ℕ) → Extends (give_up a)
unfolding give_up release
give_up-Extends a = record {
  at = λ w. record {
    lib = ground arith;
    trace = subst (Grows w.trace) (sym (the_call a w)) (more _ same);
  };
}

give_up_some-Extends : (o : Option ℕ) → Extends (give_up_some o)
give_up_some-Extends none = Extends-pure tt
give_up_some-Extends (some a) = Extends-bind _ _ (give_up-Extends a) λ r. Extends-pure tt

available-Extends : (c : Context) (name : String) → Extends (available c name)
unfolding available
available-Extends c name = search (extends_rules) depth 12

restore_default-Extends : (c : Context) (b : Bool) → Extends (restore_default c b)
unfolding restore_default
restore_default-Extends c false = Extends-pure tt
restore_default-Extends c true =
    search (extends_rules, available-Extends, give_up_some-Extends) depth 12

loaded-Extends :
    (c : Context) (name : String) (b : Bool) (o : Option ℕ) → Extends (loaded c name b o)
loaded-Extends c name b (some a) = Extends-pure _
loaded-Extends c name b none = search (extends_rules, restore_default-Extends) depth 12

load_provider-Extends : (o : Option Context) (name : String) → Extends (load_provider o name)
unfolding load_provider
load_provider-Extends none name = Extends-fail _
load_provider-Extends (some c) name =
    search (extends_rules, available-Extends, loaded-Extends) depth 12

unloaded-Extends : (r : Reply) → Extends (unloaded r)
unloaded-Extends r = search (extends_rules) depth 12

unload_at-Extends : (o : Option ℕ) → Extends (unload_at o)
unload_at-Extends none = Extends-pure _
unload_at-Extends (some a) = search (extends_rules, give_up-Extends, unloaded-Extends) depth 12

unload-Extends : (p : Provider) → Extends (unload p)
unfolding unload
unload-Extends p = unload_at-Extends p.prov

load_config-Extends : (o : Option Context) (path : String) → Extends (load_config o path)
unfolding load_config
load_config-Extends none path = Extends-fail _
load_config-Extends (some c) path = search (extends_rules) depth 12

wrapped-trace :
    {A : Type 0} (r : Result A) (w v : World) → Later v w → Later v (wrap_result (r, w)).1
wrapped-trace (ok a) w v l = l
wrapped-trace (err e) w v l = l
wrapped-trace (panic s) w v l = l

wrap_error-Extends : {A : Type 0} (m : Go A) → Extends m → Extends (wrap_error m)
unfolding wrap_error
wrap_error-Extends m e = record { at = λ w. wrapped-trace (m w).0 (m w).1 w (e.at w) }

self_test_at-Extends : (o : Option ℕ) → Extends (self_test_at o)
self_test_at-Extends none = Extends-fail _
self_test_at-Extends (some a) = search (extends_rules) depth 12

self_test-Extends : (p : Provider) → Extends (self_test p)
unfolding self_test
self_test-Extends p = self_test_at-Extends p.prov

cleaned-Later :
    {A B : Type 0} (n : Go B) (r : Result A) (w v : World)
    → Extends n
    → Later v w
    → Later v (cleaned n (r, w)).1
cleaned-Later n (ok a) w v e l = l
cleaned-Later n (err x) w v e l = Later-trans l (e.at w)
cleaned-Later n (panic s) w v e l = l

on_error-Extends :
    {A B : Type 0} (m : Go A) (n : Go B) → Extends m → Extends n → Extends (on_error m n)
unfolding on_error
on_error-Extends m n e f = record { at = λ w. cleaned-Later n (m w).0 (m w).1 w f (e.at w) }

-- A cleanup runs only after an error, so a success confirms what the body confirms.
cleaned-Asked :
    {A B : Type 0} {fn : String} {P : List Arg → Reply → Type 0} (n : Go B) (r : Result A)
    (w v : World) (a : A)
    → (cleaned n (r, w)).0 ≡ ok a
    → (r ≡ ok a → Asked v.lib fn P v.trace w.trace)
    → Asked v.lib fn P v.trace (cleaned n (r, w)).1.trace
cleaned-Asked n (ok b) w v a h k = k h
cleaned-Asked n (err x) w v a h k = cc
cleaned-Asked n (panic s) w v a h k = cc

Confirms-on_error :
    {A B : Type 0} {fn : String} {P : List Arg → Reply → Type 0} (m : Go A) (n : Go B)
    → Confirms fn P m
    → Confirms fn P (on_error m n)
unfolding on_error
Confirms-on_error m n c = record { at = λ w a h. cleaned-Asked n (m w).0 (m w).1 w a h (c.at w a) }

abbrev pub Passed : List Arg → Reply → Type 0
Passed args r = r.rc ≡ pos 1

-- the restriction is turned on, with the argument 1, and the answer is 1
abbrev pub TurnedOn : List Arg → Reply → Type 0
TurnedOn args r = ((x : Arg) × (args ≡ x ∷ num (pos 1) ∷ [])) × (r.rc ≡ pos 1)

self_test_at-Confirms : (o : Option ℕ) → Confirms "OSSL_PROVIDER_self_test" Passed (self_test_at o)
self_test_at-Confirms none = Confirms-fail _
self_test_at-Confirms (some a) = Confirms-bind _ _ Extends-clear_errors λ u.
    Confirms-bind_left _ _ (Confirms-weaken _ (λ args r q. q.1) (Confirms-call_one _ _ _))
      λ r. Extends-pure tt

self_test-Confirms : (p : Provider) → Confirms "OSSL_PROVIDER_self_test" Passed (self_test p)
unfolding self_test
self_test-Confirms p = self_test_at-Confirms p.prov

switched-Extends :
    (c : Context) (prov : Provider) (b : Bool)
    → Extends (
        if b
        then pure (record c { fips = some prov })
        else (unload prov >>= λ u. new_error "EVP_default_properties_enable_fips"))
switched-Extends c prov b = search (extends_rules, unload-Extends) depth 12

made-Extends : (o : Option ℕ) → Extends (made o)
made-Extends none = Extends-new_error _
made-Extends (some a) = Extends-pure _

new_context-Extends : Extends new_context
unfolding new_context
new_context-Extends =
    Extends-bind _ _ Extends-clear_errors λ u. Extends-bind _ _ (Extends-acquire _ _) made-Extends

-- `EnableFIPS` succeeds only after the self-test passed.
switch_fips-Tested :
    (c : Context) (path : String) → Confirms "OSSL_PROVIDER_self_test" Passed (switch_fips c path)
unfolding switch_fips
switch_fips-Tested c path = Confirms-bind _ _ (load_config-Extends _ _) λ u.
    Confirms-bind _ _ (wrap_error-Extends _ (load_provider-Extends _ _)) λ prov.
      Confirms-bind_left _ _ (Confirms-on_error _ _ (self_test-Confirms prov)) λ v.
        Extends-bind _ _ Extends-clear_errors
          λ x. Extends-bind _ _ (Extends-call _ _) λ r. switched-Extends c prov _

-- and after the context was restricted.
switch_fips-Switched :
    (c : Context) (path : String)
    → Confirms "EVP_default_properties_enable_fips" TurnedOn (switch_fips c path)
unfolding switch_fips
switch_fips-Switched c path = Confirms-bind _ _ (load_config-Extends _ _) λ u.
    Confirms-bind _ _ (wrap_error-Extends _ (load_provider-Extends _ _)) λ prov.
      Confirms-bind _ _ (on_error-Extends _ _ (self_test-Extends prov) (unload-Extends prov)) λ v.
        Confirms-bind _ _ Extends-clear_errors λ x.
          Confirms-weaken _ (λ args r q. ((_, q.0), q.1))
            (Confirms-checked _ _ _ _ (λ r. Extends-pure _)
              (Confirms-bind _ _ (unload-Extends prov) λ y. Confirms-new_error _))

module _ {fn : String} {P : List Arg → Reply → Type 0}
    (switched : (c : Context) (path : String) → Confirms fn P (switch_fips c path)) where
  enable_at-Confirms :
      (c : Context) (path : String) (o : Option ℕ) → Confirms fn P (enable_at c path o)
  enable_at-Confirms c path none = Confirms-fail _
  enable_at-Confirms c path (some a) = switched c path

  enable_fips-Confirms : (o : Option Context) (path : String) → Confirms fn P (enable_fips o path)
  unfolding enable_fips
  enable_fips-Confirms none path = Confirms-fail _
  enable_fips-Confirms (some c) path = enable_at-Confirms c path c.ctx

  new_fips_context-Confirms : (path : String) → Confirms fn P (new_fips_context path)
  unfolding new_fips_context
  new_fips_context-Confirms path =
      Confirms-bind _ _ new_context-Extends
        λ c. Confirms-on_error _ _ (enable_fips-Confirms (some c) path)

-- If NewFIPSContext returns a context, then during the call libcrypto answered 1 to a self-test of
-- a provider, and it answered 1 to EVP_default_properties_enable_fips with the argument 1.
pub new_fips_context_restricted :
    (path : String) (c : Context) (w : World)
    → (new_fips_context path w).0 ≡ ok c
    → Asked w.lib "OSSL_PROVIDER_self_test" Passed w.trace (new_fips_context path w).1.trace
      × Asked w.lib "EVP_default_properties_enable_fips" TurnedOn w.trace
          (new_fips_context path w).1.trace
new_fips_context_restricted path c w h = (
  (new_fips_context-Confirms switch_fips-Tested path).at w c h,
  (new_fips_context-Confirms switch_fips-Switched path).at w c h,
)

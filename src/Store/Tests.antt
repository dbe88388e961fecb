-- ===== src/Store/Tests.antt =====
-- Tests of the stores, and the theorems at a concrete input.
use ossl_go.Prelude.{ℕ, arith, ◌≡◌, refl, str_eq, List, [], ◌∷◌, some, leb, if◌then◌else◌}
use ossl_go.Prelude.Int.{pos}
use ossl_go.Errors.{ok}
use ossl_go.Cgo.{
  World, Call, Reply, pure, fail, abort, ◌>>=◌, call, call_one, acquire, acquire_or, using, release,
  deferred, with_cstring, clear_errors, new_error,
}
use ossl_go.Cgo.Balance.{Balanced}
use ossl_go.Cgo.Fine.{Alike}
use ossl_go.Context.{default}
use ossl_go.Key.{close_key}
use ossl_go.Samples.{fresh, agreeing, key_info}
use ossl_go.Store.{
  load_typed, load_key, list_store, next_object, first_key, all_objects, key_of_info,
  object_of_info, info_free, store_certificate, store_private_key,
}
use ossl_go.Store.Rounds.{loads, Ends}
use ossl_go.Store.Ends.{stores_end}
use ossl_go.Store.Owned.{load_typed-close-Balanced}

-- A store of two objects: a certificate, and then a private key.
abbrev ended : ℕ → List Call → ℕ
ended s t = if leb 2 (loads s t) then 1 else 0

abbrev asked_store : Call → ℕ
asked_store c = elim c.args [ [] ↦ 0 | a ∷ rest ↦ elim a [ ossl_go.Cgo.ptr s ↦ s | _ ↦ 0 ] ]

abbrev two_objects : List Call → Call → Reply
two_objects t c = record (agreeing t c) {
  rc =
      if str_eq c.fn "OSSL_STORE_eof"
      then pos (ended (asked_store c) t)
      else if str_eq c.fn "OSSL_STORE_INFO_get_type"
      then pos (if leb 2 (loads 2 t) then 4 else 5)
      else pos 1;
  key = key_info "EC";
}

abbrev with_two : World
with_two = record fresh { lib = two_objects }

lists :
    (list_store 3 (some default) "file:/keys" with_two).0
    ≡ ok (
        record { kind = store_certificate; name = "" }
        ∷ record { kind = store_private_key; name = "" }
        ∷ [])
unfolding list_store next_object all_objects object_of_info info_free pure ◌>>=◌ call acquire
    acquire_or using release deferred with_cstring clear_errors abort new_error fail
lists = refl

-- the key lies at the address behind those of the name, the store and two objects
loads_second :
    (load_key 3 (some default) "file:/keys" with_two).0
    ≡ ok (record { pkey = some (record { addr = 5; info = key_info "EC" }); ctx = some default })
unfolding load_key load_typed next_object first_key key_of_info info_free pure ◌>>=◌ call call_one
    acquire acquire_or using release deferred with_cstring clear_errors abort new_error fail
loads_second = refl

two_objects-Ends : Ends 2 two_objects
two_objects-Ends s t h = ground (arith, h)

stores_end_example :
    Alike with_two
      (load_typed 3 (some default) "file:/keys" 4)
      (load_typed 9 (some default) "file:/keys" 4)
    × Alike with_two
        (list_store 3 (some default) "file:/keys")
        (list_store 9 (some default) "file:/keys")
stores_end_example =
    stores_end 2 2 8 (some default) "file:/keys" 4 with_two two_objects-Ends (omega arith)
      (omega arith)

load_typed-close-Balanced_example :
    Balanced (load_typed 3 (some default) "file:/keys" 4 >>= close_key)
load_typed-close-Balanced_example = load_typed-close-Balanced 3 (some default) "file:/keys" 4

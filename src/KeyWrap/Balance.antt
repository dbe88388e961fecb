-- ===== src/KeyWrap/Balance.antt =====
-- Wrapping and unwrapping release their contexts, and a wrapper is released once.
use ossl_go.Prelude.{Bytes, Bool, Option, none, some}
use ossl_go.Cgo.Balance.{Balanced, Balanced-fail, balance_rules}
use ossl_go.Cipher.Balance.{
  first_byte-Balanced, update_part-Balanced, final_part-Balanced, or_verification-Balanced,
}
use ossl_go.KeyWrap.{KeyWrap, run_wrap, wrap_key, unwrap_key}

run_wrap-Balanced : (w : KeyWrap) (xs : Bytes) (e : Bool) → Balanced (run_wrap w xs e)
unfolding run_wrap
run_wrap-Balanced w xs e =
    search (balance_rules, first_byte-Balanced, update_part-Balanced, final_part-Balanced) depth 16

wrap_key-Balanced : (w : Option KeyWrap) (material : Bytes) → Balanced (wrap_key w material)
unfolding wrap_key
wrap_key-Balanced none material = Balanced-fail _
wrap_key-Balanced (some w) material = search (balance_rules, run_wrap-Balanced) depth 14

unwrap_key-Balanced : (w : Option KeyWrap) (wrapped : Bytes) → Balanced (unwrap_key w wrapped)
unfolding unwrap_key
unwrap_key-Balanced none wrapped = Balanced-fail _
unwrap_key-Balanced (some w) wrapped =
    search (balance_rules, run_wrap-Balanced, or_verification-Balanced) depth 14

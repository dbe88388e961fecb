-- ===== src/Enumerate/Curves.antt =====
-- The built-in curves of libcrypto: ListCurves and curveNID of ossl/enumerate.go, and the table that
-- ossl/capability.go reads.
use ossl_go.Prelude.{
  ℕ, Bytes, not, String, List, [], ◌∷◌, Option, none, some, ltb, ◌==◌, if◌then◌else◌,
}
use ossl_go.Prelude.Int.{ℤ, pos, eq_ℕ}
use ossl_go.Cgo.{Go, num, str, null, pure, abort, ◌>>=◌, call, with_cstring, written}
use ossl_go.Enumerate.{name_of, sort_names}

-- `curveNID(name)` with the C function `ossl_curve_nid`; NID_undef is 0.
unfoldable pub curve_nid : String → Go ℤ
curve_nid name = with_cstring name do
  r ← call "EC_curve_nist2nid" (str name ∷ [])
  if not (eq_ℕ r.rc 0) then pure r.rc else (do
    s ← call "OBJ_sn2nid" (str name ∷ [])
    if not (eq_ℕ s.rc 0) then pure s.rc else (do t ← call "OBJ_txt2nid" (str name ∷ []); pure t.rc))

-- `EC_get_builtin_curves`: the numbers of the curves, in a slice of as many places as it announced.
unfoldable pub read_curves : Go Bytes
read_curves = do
  n ← call "EC_get_builtin_curves" (null ∷ num (pos 0) ∷ [])
  if n.len == 0 then pure [] else (do
    got ← call "EC_get_builtin_curves" (num (pos n.len) ∷ [])
    if ltb n.len got.len then abort "index out of range" else pure (written n.len got.out got.len))

-- `ossl_curve_display_name(nid)`; none is NULL.
unfoldable pub display_name : ℕ → Go (Option String)
display_name nid = do
  nist ← call "EC_curve_nid2nist" (num (pos nid) ∷ [])
  if not (eq_ℕ nist.rc 0)
      then pure (some nist.text)
      else (do sn ← call "OBJ_nid2sn" (num (pos nid) ∷ []); pure (name_of sn))

abbrev with_name : Option String → List String → List String
with_name none rest = rest
with_name (some s) rest = s ∷ rest

unfoldable pub display_names : Bytes → Go (List String)
unfolding display_name
display_names [] = pure []
display_names (n ∷ ns) = do s ← display_name n; rest ← display_names ns; pure (with_name s rest)

-- `ListCurves()`
unfoldable pub list_curves : Go (List String)
list_curves = do nids ← read_curves; names ← display_names nids; pure (sort_names names)

-- ===== src/Sign.antt =====
-- Signatures over a whole message (`Sign` and `Verify` of ossl/sign.go) and over a digest that the
-- caller computed (ossl/sign_digest.go).
pub mod Balance
pub mod Accepts
pub mod Binding
pub mod Output
pub mod Tests
use ossl_go.Prelude.{
  ◌++◌, ℕ, suc, ◌+◌, ◌*◌, ◌/◌, Bytes, Bool, true, false, not, ◌||◌, String, str_append, str_eq,
  List, [], ◌∷◌, Option, none, some, ltb, ◌==◌, if◌then◌else◌, length,
}
use ossl_go.Prelude.Int.{ℤ, pos, negsuc, eq_ℕ}
use ossl_go.Errors.{
  Error, Result, ok, err, panic, verification, wrapped, refused, unless, digest_unavailable,
  digest_length, no_raw_digest, no_digest_form, prehash_length,
}
use ossl_go.Cgo.{
  World, Go, Arg, num, bytes, str, ptr, null, Reply, pure, fail, abort, lift, ◌>>=◌, ◌>>◌, call,
  call_pos, reject_with, using_or_else, clear_errors, using, with_cstring, new_error, written,
}
use ossl_go.Params.{new_params, utf8}
use ossl_go.Context.{Context, context_ptr}
use ossl_go.Key.{Key, Pkey, pkey_of, when_open, key_type, key_bits, key_context}
use ossl_go.SignOptions.{
  SignOptions, sign_opts, is_rsa, is_p1363, check_sign_options, set_pkey_params, apply_sign_options,
}
use ossl_go.Ecdsa.{der_to_p1363, p1363_to_der}

-- `ecdsaCoordinateLen(k)`
abbrev pub coordinate_len : Option Key → ℕ
coordinate_len k = (key_bits k + 7) / 8

-- `cd` is nil for an empty digest name, and else a C string that is freed at the end.
unfoldable pub with_digest_name {ℓ} : {A : Type ℓ} → String → (Arg → Go A) → Go A
with_digest_name digest body =
    if str_eq digest "" then body null else with_cstring digest (body (str digest))

-- `out := sig[:n]` for a buffer of `size` bytes that libcrypto wrote to.
abbrev pub slice_to : ℕ → Reply → Go Bytes
slice_to size r =
    if ltb size r.len then abort "slice bounds out of range" else pure (written size r.out r.len)

-- The two calls of the size discovery. `before` and `after` are the arguments around the buffer.
unfoldable pub sized_call : String → List Arg → List Arg → Go Bytes
sized_call f before after = do
  let with_room = λ (room : Arg). call_pos f (before ++ room ∷ after)
  r ← with_room null (str_append f "(size)")
  if r.len == 0
      then new_error (str_append f " reported a zero-length signature")
      else with_room (num (pos r.len)) f >>= slice_to r.len

-- `if o.Format == SignatureP1363 { return derToP1363(out, ...) }; return out, nil`
abbrev pub in_format : Option Key → SignOptions → Bytes → Result Bytes
in_format k o out = if is_p1363 o.format then der_to_p1363 out (coordinate_len k) else ok out

-- The signature as libcrypto reads it; one that does not have the P1363 form is a rejection.
abbrev pub or_rejected : Result Bytes → Result Bytes
or_rejected (ok der) = ok der
or_rejected r = err verification

abbrev pub as_der : Option Key → SignOptions → Bytes → Result Bytes
as_der k o sig =
    if is_p1363 o.format then or_rejected (p1363_to_der sig (coordinate_len k)) else ok sig

-- The `switch` on the answer of a verification.
abbrev pub verdict : String → Reply → Go (Unit {0})
verdict op r =
    if eq_ℕ r.rc 1
    then pure tt
    else if eq_ℕ r.rc 0
    then (clear_errors >> fail verification)
    else reject_with op

unfoldable pub sign_with : Option Key → Pkey → Bytes → SignOptions → Go Bytes
sign_with k p msg o = do
  lift (check_sign_options (key_type k) o)
  clear_errors
  using "EVP_MD_CTX_new" [] "EVP_MD_CTX_new" "EVP_MD_CTX_free" λ mdctx.
      with_digest_name o.digest λ cd. do
        init ←
            call_pos "EVP_DigestSignInit_ex" (ptr mdctx ∷ cd ∷ null ∷ null ∷ ptr p.addr ∷ null ∷ [])
              "EVP_DigestSignInit_ex"
        apply_sign_options init.len (key_type k) o
        out ← sized_call "EVP_DigestSign" (ptr mdctx ∷ []) (bytes msg ∷ [])
        lift (in_format k o out)

unfoldable pub sign : Option Key → Bytes → Option SignOptions → Go Bytes
sign k msg opts = when_open (pkey_of k) λ p. sign_with k p msg (sign_opts k opts)

unfoldable pub verify_with : Option Key → Pkey → Bytes → Bytes → SignOptions → Go (Unit {0})
verify_with k p msg sig o = do
  lift (check_sign_options (key_type k) o)
  clear_errors
  using "EVP_MD_CTX_new" [] "EVP_MD_CTX_new" "EVP_MD_CTX_free" λ mdctx.
      with_digest_name o.digest λ cd. do
        init ←
            call_pos "EVP_DigestVerifyInit_ex"
              (ptr mdctx ∷ cd ∷ null ∷ null ∷ ptr p.addr ∷ null ∷ []) "EVP_DigestVerifyInit_ex"
        apply_sign_options init.len (key_type k) o
        der ← lift (as_der k o sig)
        r ← call "EVP_DigestVerify" (ptr mdctx ∷ bytes der ∷ bytes msg ∷ [])
        verdict "EVP_DigestVerify" r

unfoldable pub verify : Option Key → Bytes → Bytes → Option SignOptions → Go (Unit {0})
verify k msg sig opts =
    when_open (pkey_of k)
      λ p. if length sig == 0 then fail verification else verify_with k p msg sig (sign_opts k opts)

-- `c.digestSize(name)` of ossl/enumerate.go
unfoldable pub digest_size : Context → String → Go ℕ
digest_size c name = with_cstring name do
  using_or_else "EVP_MD_fetch" (context_ptr (some c) ∷ str name ∷ null ∷ [])
      (clear_errors >> fail (refused digest_unavailable)) "EVP_MD_free"
      λ md. do r ← call "EVP_MD_get_size" (ptr md ∷ []); pure r.len

abbrev pub eddsa_prehash_len : ℕ
eddsa_prehash_len = 64

abbrev pub takes_digest : String → Bool
takes_digest t = is_rsa t || str_eq t "EC"

unfoldable pub check_digest_options : Context → String → SignOptions → ℕ → Go (Unit {0})
check_digest_options c t o digest_len = do
  lift (check_sign_options t o)
  if takes_digest t
      then (do
        want ← digest_size c o.digest
        lift (unless (not (digest_len == want)) digest_length))
      else if str_eq t "ED25519" || str_eq t "ED448"
      then (do
        lift (unless (not o.prehash) no_raw_digest)
        lift (unless (not (digest_len == eddsa_prehash_len)) prehash_length))
      else fail (refused no_digest_form)

unfoldable pub apply_digest_param : ℕ → String → Go (Unit {0})
apply_digest_param pctx digest =
    set_pkey_params pctx (new_params >>= utf8 "digest" digest) "EVP_PKEY_CTX_set_params(digest)"

-- What `SignDigest` and `VerifyDigest` do before the call that signs or verifies.
unfoldable pub digest_context {ℓ} :
    {A : Type ℓ} → Option Key → Pkey → Bytes → SignOptions → String → (ℕ → Go A) → Go A
digest_context k p digest o init body = do
  check_digest_options (key_context k) (key_type k) o (length digest)
  clear_errors
  using "EVP_PKEY_CTX_new_from_pkey" (context_ptr (some (key_context k)) ∷ ptr p.addr ∷ null ∷ [])
      "EVP_PKEY_CTX_new_from_pkey" "EVP_PKEY_CTX_free"
      λ pctx. do
        call_pos init (ptr pctx ∷ []) init
        if takes_digest (key_type k) then apply_digest_param pctx o.digest else pure tt
        apply_sign_options pctx (key_type k) o
        body pctx

unfoldable pub sign_digest : Option Key → Bytes → Option SignOptions → Go Bytes
sign_digest k digest opts = when_open (pkey_of k) λ p.
    let o = sign_opts k opts in
    digest_context k p digest o "EVP_PKEY_sign_init" λ pctx. do
      out ← sized_call "EVP_PKEY_sign" (ptr pctx ∷ []) (bytes digest ∷ [])
      lift (in_format k o out)

unfoldable pub verify_digest : Option Key → Bytes → Bytes → Option SignOptions → Go (Unit {0})
verify_digest k digest sig opts = when_open (pkey_of k) λ p.
    let o = sign_opts k opts in
    if length sig == 0
    then fail verification
    else digest_context k p digest o "EVP_PKEY_verify_init" λ pctx. do
      der ← lift (as_der k o sig)
      r ← call "EVP_PKEY_verify" (ptr pctx ∷ bytes der ∷ bytes digest ∷ [])
      verdict "EVP_PKEY_verify" r

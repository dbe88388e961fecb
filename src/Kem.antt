-- ===== src/Kem.antt =====
-- ossl/asym.go: key encapsulation. The answer of an encapsulation holds the ciphertext (`out`, `len`)
pub mod Balance
pub mod Tests
-- and the shared secret (`out2`, `len2`).
use ossl_go.Prelude.{
  ℕ, Bytes, Bool, true, false, not, ◌||◌, String, str_append, List, [], ◌∷◌, Option, none, some,
  ltb, ◌==◌, if◌then◌else◌, length,
}
use ossl_go.Prelude.Int.{pos}
use ossl_go.Errors.{refused, empty_encapsulation}
use ossl_go.Cgo.{
  Go, num, bytes, str, ptr, null, Reply, pure, fail, abort, ◌>>=◌, ◌>>◌, call_pos, with_cstring,
  new_error, written,
}
use ossl_go.Names.{equal_fold}
use ossl_go.Key.{Key, pkey_of, when_open, key_type}
use ossl_go.Asym.{key_operation, sized, reporting}

-- `setKEMOp(ctx, keyType)`
unfoldable pub set_kem_op : ℕ → String → Go (Unit {0})
set_kem_op ctx t =
    if not (equal_fold t "RSA")
    then pure tt
    else with_cstring "RSASVE" do
      call_pos "EVP_PKEY_CTX_set_kem_op" (ptr ctx ∷ str "RSASVE" ∷ [])
          "EVP_PKEY_CTX_set_kem_op(RSASVE)"
      pure tt

-- `ct[:ctLen], ss[:ssLen]` for buffers of `n` and `m` bytes that libcrypto wrote to.
abbrev pub both_to : ℕ → ℕ → Reply → Go (Bytes × Bytes)
both_to n m r =
    if ltb n r.len || ltb m r.len2
    then abort "slice bounds out of range"
    else pure (written n r.out r.len, written m r.out2 r.len2)

unfoldable pub encapsulate : Option Key → Go (Bytes × Bytes)
encapsulate k = when_open (pkey_of k) λ p. key_operation k p λ ctx. do
  call_pos "EVP_PKEY_encapsulate_init" (ptr ctx ∷ null ∷ [])
      (str_append "EVP_PKEY_encapsulate_init(" (str_append (key_type k) ")"))
  set_kem_op ctx (key_type k)
  r ← call_pos "EVP_PKEY_encapsulate" (ptr ctx ∷ null ∷ null ∷ []) "EVP_PKEY_encapsulate(size)"
  if (r.len == 0) || (r.len2 == 0)
      then new_error "EVP_PKEY_encapsulate reported a zero-length output"
      else (do
        s ←
            call_pos "EVP_PKEY_encapsulate" (ptr ctx ∷ num (pos r.len) ∷ num (pos r.len2) ∷ [])
              "EVP_PKEY_encapsulate"
        both_to r.len r.len2 s)

unfoldable pub decapsulate : Option Key → Bytes → Go Bytes
decapsulate k ciphertext = when_open (pkey_of k) λ p.
    if length ciphertext == 0
    then fail (refused empty_encapsulation)
    else key_operation k p λ ctx. do
      call_pos "EVP_PKEY_decapsulate_init" (ptr ctx ∷ null ∷ [])
          (str_append "EVP_PKEY_decapsulate_init(" (str_append (key_type k) ")"))
      set_kem_op ctx (key_type k)
      sized (reporting "EVP_PKEY_decapsulate" (ptr ctx ∷ []) (bytes ciphertext ∷ []))
          (new_error "EVP_PKEY_decapsulate reported a zero-length secret")

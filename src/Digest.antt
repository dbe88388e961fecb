-- ===== src/Digest.antt =====
-- ossl/digest.go: a hash whose errors are latched, and the digest in one call. Bytes are handed over
-- at once, and the state of a hash is in libcrypto.
pub mod Latched
pub mod Tests
use ossl_go.Prelude.{
  ℕ, Bytes, Bool, true, false, not, String, str_append, List, [], ◌∷◌, ◌++◌, Option, none, some,
  ◌==◌, if◌then◌else◌, length, replicate,
}
use ossl_go.Prelude.Int.{ℤ, pos, eq_ℕ, ltb_ℤ, is_nonpos, to_nat}
use ossl_go.Cipher.{overlay, cut}
use ossl_go.Errors.{
  Error, Result, ok, err, panic, closed, refused, xof_needs_length, output_too_long,
}
use ossl_go.Cgo.{
  World, Go, num, bytes, ptr, null, str, pure, fail, abort, lift, ◌>>=◌, ◌>>◌, attempt, call,
  call_one, deferred, release, acquire_or, using, owning, with_cstring, clear_errors, new_error,
  refuse_if,
}
use ossl_go.Context.{Context, handle, context_ptr, default}
use ossl_go.Kdf.{max_output_length}

pub record Hash : Type 0 where
  pub ctx : Option ℕ
  pub md : Option ℕ
  pub name : String
  pub size : ℤ
  pub bs : ℤ
  pub xof : Bool
  pub latch : Option Error

abbrev pub max_md_size : ℕ
max_md_size = 64

-- `c.NewHash(name)`
unfoldable pub new_hash : Option Context → String → Go Hash
new_hash none name = fail closed
new_hash (some c) name = do
  clear_errors
  with_cstring name do
    md ←
        acquire_or "EVP_MD_fetch" (context_ptr (some c) ∷ str name ∷ null ∷ [])
          (str_append "EVP_MD_fetch(" (str_append name ")"))
    owning "EVP_MD_free" md do
      ctx ← acquire_or "EVP_MD_CTX_new" [] "EVP_MD_CTX_new"
      owning "EVP_MD_CTX_free" ctx do
        call_one "EVP_DigestInit_ex2" (ptr ctx ∷ ptr md ∷ null ∷ []) "EVP_DigestInit_ex2"
        size ← call "EVP_MD_get_size" (ptr md ∷ [])
        bs ← call "EVP_MD_get_block_size" (ptr md ∷ [])
        xof ← call "EVP_MD_xof" (ptr md ∷ [])
        pure (record {
          ctx = some ctx;
          md = some md;
          name = name;
          size = size.rc;
          bs = bs.rc;
          xof = not (eq_ℕ xof.rc 0);
          latch = none;
        })

-- A method whose failure is latched: its result, and the hash that it leaves.
abbrev pub latching {ℓ} : {A : Type ℓ} → Hash → Result A → Go (Result A × Hash)
latching h (ok a) = pure (ok a, h)
latching h (err e) = pure (err e, record h { latch = some e })
latching h (panic s) = abort s

-- `Write`, whose check for a closed hash latches nothing.
abbrev pub put_at : Option ℕ → Hash → Bytes → Go (Result ℕ × Hash)
put_at none h p = pure (err closed, h)
put_at (some c) h p = if length p == 0 then pure (ok 0, h) else (do
  r ←
      attempt
        (call_one "EVP_DigestUpdate" (ptr c ∷ bytes p ∷ []) "EVP_DigestUpdate" >> pure (length p))
  latching h r)

unfoldable pub write_hash : Hash → Bytes → Go (Result ℕ × Hash)
write_hash h p = put_at h.ctx h p

-- The digest of a copy of the state of the context `c`.
unfoldable pub digest_of : ℕ → Go Bytes
digest_of c = using "EVP_MD_CTX_new" [] "EVP_MD_CTX_new" "EVP_MD_CTX_free" λ tmp. do
  call_one "EVP_MD_CTX_copy_ex" (ptr tmp ∷ ptr c ∷ []) "EVP_MD_CTX_copy_ex"
  r ← call_one "EVP_DigestFinal_ex" (ptr tmp ∷ []) "EVP_DigestFinal_ex"
  cut r.len (overlay (replicate max_md_size 0) 0 r.out)

abbrev pub sum_at : Option ℕ → Bool → Go Bytes
sum_at none xof = fail closed
sum_at (some c) true = fail (refused xof_needs_length)
sum_at (some c) false = digest_of c

-- What `Sum` appends to `b`.
abbrev pub appended : Bytes → Result Bytes × Hash → Go (Bytes × Hash)
appended b (ok s, h) = pure (b ++ s, h)
appended b (err e, h) = pure (b, h)
appended b (panic s, h) = abort s

-- `h.Sum(b)`: it returns `b` alone where it fails, and latches the error.
unfoldable pub sum : Hash → Bytes → Go (Bytes × Hash)
sum h b = attempt (sum_at h.ctx h.xof) >>= latching h >>= appended b

abbrev pub sum_xof_at : Option ℕ → ℤ → Go Bytes
sum_xof_at none n = fail closed
sum_xof_at (some c) n = if is_nonpos n then pure [] else (do
  refuse_if (ltb_ℤ (pos max_output_length) n) output_too_long
  r ← call_one "EVP_DigestFinalXOF" (ptr c ∷ num n ∷ []) "EVP_DigestFinalXOF"
  pure (overlay (replicate (to_nat n) 0) 0 r.out))

-- `h.SumXOF(n)`
unfoldable pub sum_xof : Hash → ℤ → Go Bytes
sum_xof h n = sum_xof_at h.ctx n

abbrev pub reset_at : Option ℕ → Hash → Go Hash
reset_at none h = pure h
reset_at (some c) h = do
  r ← attempt (call_one "EVP_DigestInit_ex2" (ptr c ∷ handle h.md ∷ null ∷ []) "EVP_DigestInit_ex2")
  (u, h') ← latching h r
  pure h'

-- `h.Reset()`
unfoldable pub reset : Hash → Go Hash
reset h = reset_at h.ctx h

abbrev pub release_some : String → Option ℕ → World → World
release_some f none w = w
release_some f (some a) w = release f a w

-- `h.Close()`
unfoldable pub close_hash : Hash → Go Hash
close_hash h w = (
  ok (record h { ctx = none; md = none }),
  release_some "EVP_MD_free" h.md (release_some "EVP_MD_CTX_free" h.ctx w),
)

abbrev pub closing : Hash → World → World
closing h w = (close_hash h w).1

-- `if err := h.Err(); err != nil { return nil, err }; return sum, nil`
abbrev pub unless_latched : Bytes → Option Error → Go Bytes
unless_latched s none = pure s
unless_latched s (some e) = fail e

abbrev pub summed : Bytes × Hash → Go Bytes
summed (s, h) = unless_latched s h.latch

-- The digest of the hash that `Write` leaves.
abbrev pub after_write {ℓ} : {A : Type ℓ} → (Hash → Go A) → Result ℕ × Hash → Go A
after_write k (ok n, h) = k h
after_write k (err e, h) = fail e
after_write k (panic s, h) = abort s

-- `Digest(name, data)`
unfoldable pub digest : String → Bytes → Go Bytes
digest name input = do
  h ← new_hash (some default) name
  deferred (closing h) (write_hash h input >>= after_write λ h'. sum h' [] >>= summed)

-- `DigestXOF(name, data, n)`
unfoldable pub digest_xof : String → Bytes → ℤ → Go Bytes
digest_xof name input n = do
  h ← new_hash (some default) name
  deferred (closing h) (write_hash h input >>= after_write λ h'. sum_xof h' n)

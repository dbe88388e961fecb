-- ===== src/Kdf/Bounds.antt =====
-- What a derivation that succeeds has asked of libcrypto, and what it returns.
use ossl_go.Prelude.{
  ℕ, ◌%◌, ◌^◌, ◌≤◌, ◌≡◌, refl, sym, subst, ◌∙◌, ap, Bytes, false, String, List, [], ◌∷◌, ◌++◌,
  Option, none, some, arith, length,
}
use ossl_go.Prelude.Int.{ℤ, pos, negsuc, is_nonpos, ltb_ℤ, to_nat}
use ossl_go.Errors.{ok}
use ossl_go.Cgo.{World, Arg, Reply, utf8_string, octet_string, uint_value, end_mark, written, ◌>>=◌}
use ossl_go.Cgo.Trace.{Asked, extends_rules}
use ossl_go.Cgo.Confirms.{
  Confirms, Confirms-fail, Confirms-bind, Confirms-bind_of, Confirms-bind_left, Confirms-using,
  Confirms-with_cstring, Confirms-call_one, Confirms-weaken,
}
use ossl_go.Cgo.Returns.{
  Ensures, Ensures-fail, Ensures-pure, Ensures-bind, Ensures-bind_of, Ensures-using,
  Ensures-with_cstring, refuse_if-false, length-written,
}
use ossl_go.Params.{Builder}
use ossl_go.Params.Calls.{c-Extends, params_extend, Confirms-with_params, Ensures-with_params}
use ossl_go.Params.Entries.{
  Entry, args_entries, Holds, Holds-bind, c_held, new_params-Holds, utf8-Appends, octets-Appends,
  uint-Appends,
}
use ossl_go.Context.{Context}
use ossl_go.Kdf.{max_output_length, max_pbkdf2_iterations, derive_kdf, pbkdf2}

abbrev pub InRange : ℤ → Bytes → Type 0
InRange n out = (n ≡ pos (length out)) × (1 ≤ length out) × (length out ≤ max_output_length)

written-InRange :
    (n : ℤ) (out : Bytes)
    → is_nonpos n ≡ false
    → ltb_ℤ (pos max_output_length) n ≡ false
    → InRange n (written (to_nat n) out (to_nat n))
written-InRange (pos n) out h k =
    let l : length (written n out n) ≡ n = length-written n out n (omega arith) in
    (ap pos (sym l), ground arith, ground arith)
written-InRange (negsuc n) out h k = cc

-- A derived key has the length asked for, which is between 1 byte and the limit.
pub derive_kdf-InRange :
    (c : Option Context) (name : String) (p : Builder) (n : ℤ)
    → Ensures (InRange n) (derive_kdf c name p n)
unfolding derive_kdf
derive_kdf-InRange none name p n = Ensures-fail _
derive_kdf-InRange (some c) name p n = Ensures-bind_of _ _ λ w u low.
    Ensures-bind_of _ _ λ w' u' high. Ensures-bind _ _ λ _. Ensures-with_cstring name _ (
      Ensures-using _ _ _ _ _ λ kdf. Ensures-using _ _ _ _ _ λ ctx. Ensures-bind _ _ λ p'.
        Ensures-bind _ _ λ r. Ensures-pure _ (
          written-InRange n r.out ((refuse_if-false _ _).at w u low)
            ((refuse_if-false _ _).at w' u' high)))

-- The call of EVP_KDF_derive was answered 1, and it was given `kvs` and an end mark.
abbrev pub DerivedWith : List Entry → List Arg → Reply → Type 0
DerivedWith kvs args r = (r.rc ≡ pos 1) × (args_entries args ≡ kvs ++ ("", end_mark) ∷ [])

derive_kdf-Confirms :
    (kvs : List Entry) (c : Option Context) (name : String) (p : Builder) (n : ℤ)
    → Holds kvs p
    → Confirms "EVP_KDF_derive" (DerivedWith kvs) (derive_kdf c name p n)
unfolding derive_kdf
derive_kdf-Confirms kvs none name p n h = Confirms-fail _
derive_kdf-Confirms kvs (some c) name p n h = Confirms-bind _ _ (search extends_rules) λ _.
    Confirms-bind _ _ (search extends_rules) λ _. Confirms-bind _ _ (search extends_rules) λ _.
      Confirms-with_cstring name _ (
        Confirms-using _ _ _ _ _ λ kdf. Confirms-using _ _ _ _ _ λ ctx.
          Confirms-bind_of _ _ (c-Extends p) λ w p' e.
            Confirms-bind_left _ _
              (Confirms-weaken _
                (λ args r q. (q.1, ap args_entries q.0 ∙ (c_held kvs p h).at w p' e))
                (Confirms-call_one _ _ _))
              λ r. search extends_rules)

-- the entries that `PBKDF2` builds for `m` iterations
abbrev pub pbkdf2_entries : String → Bytes → Bytes → ℕ → List Entry
pbkdf2_entries digest password salt m =
    ("digest", utf8_string digest)
    ∷ ("pass", octet_string password)
    ∷ ("salt", octet_string salt)
    ∷ ("iter", uint_value m)
    ∷ []

pbkdf2_wraps : (m : ℕ) → m ≤ max_pbkdf2_iterations → m % 2 ^ 64 % 2 ^ 32 ≡ m
pbkdf2_wraps m h = omega arith

abbrev IterationsIn : ℕ → Type 0
IterationsIn m = (1 ≤ m) × (m ≤ max_pbkdf2_iterations)

iterations_in :
    (m : ℕ)
    → is_nonpos (pos m) ≡ false
    → ltb_ℤ (pos max_pbkdf2_iterations) (pos m) ≡ false
    → IterationsIn m
iterations_in m h k = (ground arith, ground arith)

module _ (c : Option Context) (digest : String) (password salt : Bytes) (m : ℕ) (n : ℤ) where
  pbkdf2-Ensures :
      Ensures
        (λ out. (1 ≤ m) × (m ≤ max_pbkdf2_iterations) × InRange n out)
        (pbkdf2 c digest password salt (pos m) n)
  unfolding pbkdf2
  pbkdf2-Ensures = Ensures-bind_of _ _ λ w u low. Ensures-bind_of _ _ λ w' u' high.
      Ensures-with_params _ _ λ p. record {
        at = λ w'' out e.
            let b =
              iterations_in m ((refuse_if-false _ _).at w u low)
                ((refuse_if-false _ _).at w' u' high) in
            (b.0, b.1, (derive_kdf-InRange c _ p n).at w'' out e);
      }

  pbkdf2-Confirms :
      Confirms "EVP_KDF_derive"
        (DerivedWith (pbkdf2_entries digest password salt m))
        (pbkdf2 c digest password salt (pos m) n)
  unfolding pbkdf2
  pbkdf2-Confirms = Confirms-bind_of _ _ (search extends_rules) λ w u low.
      Confirms-bind_of _ _ (search extends_rules) λ w' u' high.
        Confirms-with_params _ _ (search (extends_rules, params_extend) depth 12) λ w'' p e.
          derive_kdf-Confirms (pbkdf2_entries digest password salt m) c _ p n (
            subst
              (λ k.
                Holds
                  (("digest", utf8_string digest)
                    ∷ ("pass", octet_string password)
                    ∷ ("salt", octet_string salt)
                    ∷ ("iter", uint_value k)
                    ∷ [])
                  p)
              (pbkdf2_wraps m
                (iterations_in m ((refuse_if-false _ _).at w u low)
                  ((refuse_if-false _ _).at w' u' high)).1)
              ((Holds-bind _ _ _ _
                  (Holds-bind _ _ _ _
                    (Holds-bind _ _ _ _
                      (Holds-bind _ _ _ _ new_params-Holds (utf8-Appends "digest" digest))
                      (octets-Appends "pass" password))
                    (octets-Appends "salt" salt))
                  (uint-Appends "iter" _)).at
                w'' p e))

-- A PBKDF2 derivation succeeds only for 1 to ten million iterations. libcrypto then derived the key
-- with the digest, password and salt given and with just that count, nothing wrapped, and
-- nothing else; and the key has the length asked for, which is in range.
pub pbkdf2_exact :
    (c : Option Context) (digest : String) (password salt : Bytes) (iterations n : ℤ) (w : World)
    (out : Bytes)
    → (pbkdf2 c digest password salt iterations n w).0 ≡ ok out
    → (m : ℕ) × (iterations ≡ pos m)
      × (1 ≤ m)
      × (m ≤ max_pbkdf2_iterations)
      × InRange n out
      × Asked w.lib "EVP_KDF_derive"
          (DerivedWith (pbkdf2_entries digest password salt m))
          w.trace
          (pbkdf2 c digest password salt iterations n w).1.trace
pbkdf2_exact c digest password salt (pos m) n w out e =
    let b = (pbkdf2-Ensures c digest password salt m n).at w out e in
    (m, refl, b.0, b.1, b.2, (pbkdf2-Confirms c digest password salt m n).at w out e)
pbkdf2_exact c digest password salt (negsuc m) n w out e = absurd (unfold pbkdf2 ◌>>=◌ in cc e)

-- ===== src/Cgo/Balance.antt =====
-- A function of the binding is balanced if, unless it panics, it releases just what it acquired.
use ossl_go.Prelude.{
  ℕ, suc, ◌≡◌, refl, ◌∙◌, Bool, true, false, String, List, Option, none, some, arith, if◌then◌else◌,
}
use ossl_go.Prelude.Int.{eq_ℕ, is_nonpos}
use ossl_go.Errors.{Result, Error, ok, err, panic, Refusal}
use ossl_go.Cgo.{
  World, Go, Arg, pure, fail, abort, lift, ◌>>=◌, continue, call, attempt, attempt_result, deferred,
  release, acquire, or_new_error, using, with_cstring, with_block, new_error, reject_with, held,
  using_or_else, clear_errors, call_one, call_pos, new_error_if, refuse_if, bump,
}

-- The same references are held, and no reference was released that was not held.
pub record SameHeap (w w' : World) : Type 0 where
  pub live : (a : ℕ) → w'.live a ≡ w.live a
  pub bad : w'.bad_frees ≡ w.bad_frees

pub SameHeap-refl : (w : World) → SameHeap w w
SameHeap-refl w = record { live = λ a. refl; bad = refl }

pub SameHeap-trans : {u v w : World} → SameHeap u v → SameHeap v w → SameHeap u w
SameHeap-trans p q = record { live = λ a. q.live a ∙ p.live a; bad = q.bad ∙ p.bad }

abbrev pub UnlessPanic {ℓ} : {A : Type ℓ} → Result A → Type 0 → Type 0
UnlessPanic (panic s) P = Unit
UnlessPanic _ P = P

pub record Balanced {ℓ} {A : Type ℓ} (m : Go A) : Type 0 where
  pub at : (w : World) → UnlessPanic (m w).0 (SameHeap w (m w).1)

module _ {ℓ} {A : Type ℓ} where
  pub Balanced-pure : (a : A) → Balanced (pure a)
  unfolding pure
  Balanced-pure a = record { at = λ w. SameHeap-refl w }

  pub Balanced-fail : (e : Error) → Balanced (fail {A = A} e)
  unfolding fail
  Balanced-fail e = record { at = λ w. SameHeap-refl w }

  pub Balanced-lift : (r : Result A) → Balanced (lift r)
  unfolding lift
  Balanced-lift (ok a) = record { at = λ w. SameHeap-refl w }
  Balanced-lift (err e) = record { at = λ w. SameHeap-refl w }
  Balanced-lift (panic s) = record { at = λ w. tt }

  pub Balanced-new_error : (op : String) → Balanced (new_error {A = A} op)
  unfolding new_error
  Balanced-new_error op = record { at = λ w. record { live = λ a. refl; bad = refl } }

  pub Balanced-abort : (s : String) → Balanced (abort {A = A} s)
  unfolding abort
  Balanced-abort s = record { at = λ w. tt }

  pub Balanced-reject_with : (op : String) → Balanced (reject_with {A = A} op)
  unfolding reject_with
  Balanced-reject_with op = record { at = λ w. record { live = λ a. refl; bad = refl } }

  pub Balanced-if :
      (b : Bool) (m n : Go A) → Balanced m → Balanced n → Balanced (if b then m else n)
  Balanced-if true m n p q = p
  Balanced-if false m n p q = q

module _ {ℓ κ} {A : Type ℓ} {B : Type κ} where
  continue-Balanced :
      (w : World) (r : Result A) (w' : World) (f : A → Go B)
      → UnlessPanic r (SameHeap w w')
      → ((a : A) → Balanced (f a))
      → UnlessPanic (continue r f w').0 (SameHeap w (continue r f w').1)
  continue-Balanced w (ok a) w' f h k = after (f a w').0 ((k a).at w')
    where
      after :
          (r : Result B)
          → UnlessPanic r (SameHeap w' (f a w').1)
          → UnlessPanic r (SameHeap w (f a w').1)
      after (ok b) q = SameHeap-trans h q
      after (err e) q = SameHeap-trans h q
      after (panic s) q = tt
  continue-Balanced w (err e) w' f h k = h
  continue-Balanced w (panic s) w' f h k = tt

  pub Balanced-bind :
      (m : Go A) (f : A → Go B) → Balanced m → ((a : A) → Balanced (f a)) → Balanced (m >>= f)
  unfolding ◌>>=◌
  Balanced-bind m f p q = record { at = λ w. continue-Balanced w (m w).0 (m w).1 f (p.at w) q }

-- after one more reference on `a`, releasing it restores the heap
pub release-SameHeap :
    (f : String) (a : ℕ) (w w' : World)
    → ((i : ℕ) → w'.live i ≡ bump w.live a i)
    → w'.bad_frees ≡ w.bad_frees
    → SameHeap w (release f a w')
unfolding release
release-SameHeap f a w w' h b = record {
  live = λ i. ground (arith, h i, h a);
  bad = ground (arith, h a);
}

-- What `acquire` answers: NULL and the same heap, or one more reference on the new address.
abbrev pub Acquired : World → Result (Option ℕ) → World → Type 0
Acquired w (ok none) w' = SameHeap w w'
Acquired w (ok (some a)) w' = ((i : ℕ) → w'.live i ≡ bump w.live a i) × (w'.bad_frees ≡ w.bad_frees)
Acquired w _ w' = ⊥

pub acquire-Acquired :
    (f : String) (args : List Arg) (w : World)
    → Acquired w (acquire f args w).0 (acquire f args w).1
unfolding acquire
acquire-Acquired f args w =
    elim (eq_ℕ (w.lib w.trace (record { fn = f; args = args })).rc 0)
      as (λ b.
        let m : Result (Option ℕ) × World = if b then (ok none, (call f args w).1) else (
          ok (some w.next),
          record (call f args w).1 { live = bump w.live w.next; next = suc w.next },
        ) in
        Acquired w m.0 m.1) [
          | true ↦ record { live = λ a. refl; bad = refl }
          | false ↦ (λ i. refl, refl)
        ]

module _ {ℓ} {A : Type ℓ} where
  deferred-Balanced :
      (f : String) (a : ℕ) (body : Go A) (w w' : World)
      → Balanced body
      → ((i : ℕ) → w'.live i ≡ bump w.live a i)
      → w'.bad_frees ≡ w.bad_frees
      → UnlessPanic
          (deferred (release f a) body w').0
          (SameHeap w (deferred (release f a) body w').1)
  unfolding deferred
  deferred-Balanced f a body w w' p h b = go (body w').0 (p.at w')
    where
      go :
          (r : Result A)
          → UnlessPanic r (SameHeap w' (body w').1)
          → UnlessPanic r (SameHeap w (release f a (body w').1))
      go (ok x) q = release-SameHeap f a w (body w').1 (λ i. q.live i ∙ h i) (q.bad ∙ b)
      go (err e) q = release-SameHeap f a w (body w').1 (λ i. q.live i ∙ h i) (q.bad ∙ b)
      go (panic s) q = tt

  pub Balanced-with_cstring :
      (s : String) (body : Go A) → Balanced body → Balanced (with_cstring s body)
  unfolding with_cstring
  Balanced-with_cstring s body p = record {
    at = λ w. deferred-Balanced "free" w.next body w _ p (λ i. refl) refl;
  }

  pub Balanced-with_block :
      (free : String) (body : Go A) → Balanced body → Balanced (with_block free body)
  unfolding with_block
  Balanced-with_block free body p = record {
    at = λ w. deferred-Balanced free w.next body w _ p (λ i. refl) refl;
  }

  using-Acquired :
      (op free : String) (body : ℕ → Go A) (w : World) (r : Result (Option ℕ)) (w' : World)
      → Acquired w r w'
      → ((a : ℕ) → Balanced (body a))
      → let m =
          continue
            (continue r (or_new_error op) w').0
            (λ a. deferred (release free a) (body a))
            (continue r (or_new_error op) w').1 in
        UnlessPanic m.0 (SameHeap w m.1)
  unfolding new_error pure
  using-Acquired op free body w (ok none) w' q p = record { live = q.live; bad = q.bad }
  using-Acquired op free body w (ok (some a)) w' (l, b) p =
      deferred-Balanced free a (body a) w w' (p a) l b
  using-Acquired op free body w (err e) w' q p = elim q [ ]
  using-Acquired op free body w (panic s) w' q p = elim q [ ]

  pub Balanced-using :
      (f : String) (args : List Arg) (op free : String) (body : ℕ → Go A)
      → ((a : ℕ) → Balanced (body a))
      → Balanced (using f args op free body)
  unfolding using
  Balanced-using f args op free body p = record {
    at = λ w.
        using-Acquired op free body w (acquire f args w).0 (acquire f args w).1
          (acquire-Acquired f args w) p;
  }

  held-Acquired :
      (missing : Go A) (free : String) (body : ℕ → Go A) (w : World) (r : Result (Option ℕ))
      (w' : World)
      → Acquired w r w'
      → Balanced missing
      → ((a : ℕ) → Balanced (body a))
      → UnlessPanic
          (continue r (held missing free body) w').0
          (SameHeap w (continue r (held missing free body) w').1)
  held-Acquired missing free body w (ok none) w' q m p = after (missing w').0 (m.at w')
    where
      after :
          (r : Result A)
          → UnlessPanic r (SameHeap w' (missing w').1)
          → UnlessPanic r (SameHeap w (missing w').1)
      after (ok x) t = SameHeap-trans q t
      after (err e) t = SameHeap-trans q t
      after (panic s) t = tt
  held-Acquired missing free body w (ok (some a)) w' (l, b) m p =
      deferred-Balanced free a (body a) w w' (p a) l b
  held-Acquired missing free body w (err e) w' q m p = elim q [ ]
  held-Acquired missing free body w (panic s) w' q m p = elim q [ ]

  pub Balanced-using_or_else :
      (f : String) (args : List Arg) (missing : Go A) (free : String) (body : ℕ → Go A)
      → Balanced missing
      → ((a : ℕ) → Balanced (body a))
      → Balanced (using_or_else f args missing free body)
  unfolding using_or_else ◌>>=◌
  Balanced-using_or_else f args missing free body m p = record {
    at = λ w.
        held-Acquired missing free body w (acquire f args w).0 (acquire f args w).1
          (acquire-Acquired f args w) m p;
  }

  pub Balanced-attempt : (m : Go A) → Balanced m → Balanced (attempt m)
  unfolding attempt
  Balanced-attempt m p = record { at = λ w. go (m w).0 w (m w).1 (p.at w) }
    where
      go :
          (r : Result A) (w w' : World)
          → UnlessPanic r (SameHeap w w')
          → UnlessPanic (attempt_result r) (SameHeap w w')
      go (ok x) w w' q = q
      go (err e) w w' q = q
      go (panic s) w w' q = tt

pub Balanced-call : (f : String) (args : List Arg) → Balanced (call f args)
unfolding call
Balanced-call f args = record { at = λ w. record { live = λ a. refl; bad = refl } }

pub Balanced-clear_errors : Balanced clear_errors
unfolding clear_errors
Balanced-clear_errors = record { at = λ w. record { live = λ a. refl; bad = refl } }

pub Balanced-call_one : (f : String) (args : List Arg) (op : String) → Balanced (call_one f args op)
unfolding call_one
Balanced-call_one f args op =
    Balanced-bind (call f args) _ (Balanced-call f args)
      λ r. Balanced-if (eq_ℕ r.rc 1) _ _ (Balanced-pure r) (Balanced-new_error op)

pub Balanced-call_pos : (f : String) (args : List Arg) (op : String) → Balanced (call_pos f args op)
unfolding call_pos
Balanced-call_pos f args op =
    Balanced-bind (call f args) _ (Balanced-call f args)
      λ r. Balanced-if (is_nonpos r.rc) _ _ (Balanced-new_error op) (Balanced-pure r)

pub Balanced-new_error_if : (b : Bool) (op : String) → Balanced (new_error_if b op)
Balanced-new_error_if true op = Balanced-new_error op
Balanced-new_error_if false op = Balanced-pure tt

pub Balanced-refuse_if : (b : Bool) (r : Refusal) → Balanced (refuse_if b r)
Balanced-refuse_if true r = Balanced-fail _
Balanced-refuse_if false r = Balanced-pure tt

pub ruleset balance_rules = (
  Balanced-pure, Balanced-fail, Balanced-lift, Balanced-new_error, Balanced-if, Balanced-bind,
  Balanced-with_cstring, Balanced-with_block, Balanced-using, Balanced-using_or_else,
  Balanced-abort, Balanced-reject_with, Balanced-attempt, Balanced-call, Balanced-clear_errors,
  Balanced-call_one, Balanced-call_pos, Balanced-new_error_if, Balanced-refuse_if,
)

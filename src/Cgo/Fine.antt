-- ===== src/Cgo/Fine.antt =====
-- Functions that never panic, and two functions that behave alike from a world on.
use ossl_go.Prelude.{
  ℕ, suc, Bool, true, false, String, List, Option, none, some, ◌≡◌, refl, ap, if◌then◌else◌,
}
use ossl_go.Prelude.Int.{eq_ℕ}
use ossl_go.Errors.{Error, Result, ok, err, panic}
use ossl_go.Cgo.{
  World, Go, Arg, pure, fail, ◌>>=◌, continue, call, call_one, acquire, acquire_or, or_new_error,
  new_error, clear_errors, deferred, release, with_cstring, using, bump,
}
use ossl_go.Cgo.Trace.{Later, same, Extends, Extends-acquire, Extends-bind, Extends-or_new_error}

abbrev pub NoPanic {ℓ} : {A : Type ℓ} → Result A → Type 0
NoPanic (ok x) = Unit
NoPanic (err e) = Unit
NoPanic (panic s) = ⊥

pub record Fine {ℓ} {A : Type ℓ} (m : Go A) : Type 0 where
  pub at : (w : World) → NoPanic (m w).0

module _ {ℓ} {A : Type ℓ} where
  pub Fine-pure : (x : A) → Fine (pure x)
  unfolding pure
  Fine-pure x = record { at = λ w. tt }

  pub Fine-fail : (e : Error) → Fine (fail {A = A} e)
  unfolding fail
  Fine-fail e = record { at = λ w. tt }

  pub Fine-new_error : (op : String) → Fine (new_error {A = A} op)
  unfolding new_error
  Fine-new_error op = record { at = λ w. tt }

  pub Fine-if : (b : Bool) (m n : Go A) → Fine m → Fine n → Fine (if b then m else n)
  Fine-if true m n p q = p
  Fine-if false m n p q = q

pub Fine-call : (f : String) (args : List Arg) → Fine (call f args)
unfolding call
Fine-call f args = record { at = λ w. tt }

pub Fine-clear_errors : Fine clear_errors
unfolding clear_errors
Fine-clear_errors = record { at = λ w. tt }

Fine-or_new_error : (op : String) (o : Option ℕ) → Fine (or_new_error op o)
Fine-or_new_error op none = Fine-new_error op
Fine-or_new_error op (some a) = Fine-pure a

module _ {ℓ κ} {A : Type ℓ} {B : Type κ} where
  continue-NoPanic :
      (r : Result A) (f : A → Go B) (w : World)
      → NoPanic r
      → ((x : A) → Fine (f x))
      → NoPanic (continue r f w).0
  continue-NoPanic (ok x) f w p q = (q x).at w
  continue-NoPanic (err e) f w p q = tt
  continue-NoPanic (panic s) f w p q = p

  pub Fine-bind : (m : Go A) (f : A → Go B) → Fine m → ((x : A) → Fine (f x)) → Fine (m >>= f)
  unfolding ◌>>=◌
  Fine-bind m f p q = record { at = λ w. continue-NoPanic (m w).0 f (m w).1 (p.at w) q }

abbrev answer : Bool → World → World → ℕ → Result (Option ℕ) × World
answer b u v a = if b then (ok none, u) else (ok (some a), v)

answer-NoPanic : (b : Bool) (u v : World) (a : ℕ) → NoPanic (answer b u v a).0
answer-NoPanic true u v a = tt
answer-NoPanic false u v a = tt

pub Fine-acquire : (f : String) (args : List Arg) → Fine (acquire f args)
unfolding acquire
Fine-acquire f args = record {
  at = λ w. answer-NoPanic (eq_ℕ (w.lib w.trace (record { fn = f; args = args })).rc 0) _ _ _;
}

Fine-acquire_or : (f : String) (args : List Arg) (op : String) → Fine (acquire_or f args op)
unfolding acquire_or
Fine-acquire_or f args op = Fine-bind _ _ (Fine-acquire f args) (Fine-or_new_error op)

pub Fine-call_one : (f : String) (args : List Arg) (op : String) → Fine (call_one f args op)
unfolding call_one
Fine-call_one f args op =
    Fine-bind _ _ (Fine-call f args)
      λ r. Fine-if (eq_ℕ r.rc 1) _ _ (Fine-pure r) (Fine-new_error op)

-- From the world `w` the two end in the same result and world, and not in a panic.
pub record Alike {ℓ} {A : Type ℓ} (w : World) (m n : Go A) : Type ℓ where
  pub same : m w ≡ n w
  pub fine : NoPanic (m w).0

pub Alike-Fine {ℓ} : {A : Type ℓ} (w : World) (m : Go A) → Fine m → Alike w m m
Alike-Fine w m p = record { same = refl; fine = p.at w }

module _ {ℓ κ} {A : Type ℓ} {B : Type κ} where
  continue-Alike :
      (w : World) (r : Result A) (v : World) (f g : A → Go B)
      → Later w v
      → NoPanic r
      → ((x : A) (v : World) → Later w v → Alike v (f x) (g x))
      → Alike v (λ v. continue r f v) (λ v. continue r g v)
  continue-Alike w (ok x) v f g l p q = q x v l
  continue-Alike w (err e) v f g l p q = record { same = refl; fine = tt }
  continue-Alike w (panic s) v f g l p q = absurd p

  -- The first part is the same on both sides.
  pub Alike-bind :
      (w : World) (m : Go A) (f g : A → Go B)
      → Extends m
      → Fine m
      → ((x : A) (v : World) → Later w v → Alike v (f x) (g x))
      → Alike w (m >>= f) (m >>= g)
  unfolding ◌>>=◌
  Alike-bind w m f g e p q =
      let h = continue-Alike w (m w).0 (m w).1 f g (e.at w) (p.at w) q in
      record { same = h.same; fine = h.fine }

module _ {ℓ} {A : Type ℓ} where
  pub Alike-deferred :
      (w : World) (cleanup : World → World) (m n : Go A)
      → Alike w m n
      → Alike w (deferred cleanup m) (deferred cleanup n)
  unfolding deferred
  Alike-deferred w cleanup m n h = record {
    same = ap (λ p. (p.0, cleanup p.1)) h.same;
    fine = h.fine;
  }

  pub Alike-with_cstring :
      (w : World) (s : String) (m n : Go A)
      → ((v : World) → Later w v → Alike v m n)
      → Alike w (with_cstring s m) (with_cstring s n)
  unfolding with_cstring
  Alike-with_cstring w s m n h =
      let v = record w { live = bump w.live w.next; next = suc w.next } in
      let d =
        Alike-deferred v (release "free" w.next) m n (h v (record { lib = refl; trace = same })) in
      record { same = d.same; fine = d.fine }

  pub Alike-using :
      (w : World) (f : String) (args : List Arg) (op free : String) (m n : ℕ → Go A)
      → ((a : ℕ) (v : World) → Later w v → Alike v (m a) (n a))
      → Alike w (using f args op free m) (using f args op free n)
  unfolding using acquire_or
  Alike-using w f args op free m n h =
      Alike-bind w (acquire f args >>= or_new_error op) _ _
        (Extends-bind _ _ (Extends-acquire f args) (Extends-or_new_error op))
        (Fine-bind _ _ (Fine-acquire f args) (Fine-or_new_error op))
        λ a v l. Alike-deferred v (release free a) (m a) (n a) (h a v l)

  pub Alike-if :
      (w : World) (b : Bool) (k m n : Go A)
      → Alike w k k
      → Alike w m n
      → Alike w (if b then k else m) (if b then k else n)
  Alike-if w true k m n p q = p
  Alike-if w false k m n p q = q

module _ {ℓ κ} {A : Type ℓ} {B : Type κ} where
  -- The second part is the same on both sides.
  pub Alike-then :
      (w : World) (m n : Go A) (f : A → Go B)
      → Alike w m n
      → ((x : A) → Fine (f x))
      → Alike w (m >>= f) (n >>= f)
  unfolding ◌>>=◌
  Alike-then w m n f h p = record {
    same = ap (λ r. continue r.0 f r.1) h.same;
    fine = continue-NoPanic (m w).0 f (m w).1 h.fine p;
  }

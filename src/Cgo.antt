-- ===== src/Cgo.antt =====
-- The boundary between package ossl and libcrypto. libcrypto is not part of the repository, so what
-- it answers is a parameter: the field `lib` of the world, an arbitrary function of all the calls made
-- so far. The rest of the world is what the binding can change: the thread's error queue and
-- the C objects and allocations that it holds.
pub mod Balance
pub mod Trace
pub mod Confirms
pub mod Returns
pub mod Owns
pub mod Fails
pub mod Drops
pub mod Blind
pub mod Refs
pub mod Uses
pub mod Fine
pub mod Only
pub mod Ordered
use Prim.Native.Nat.{max}
use ossl_go.Prelude.{
  ℕ, Bytes, suc, ◌+◌, ◌-◌, Bool, true, false, String, List, [], ◌∷◌, ◌++◌, Option, none, some, ◌==◌,
  if◌then◌else◌, length, take, replicate,
}
use ossl_go.Prelude.Int.{ℤ, pos, eq_ℕ, is_nonpos}
use ossl_go.Errors.{
  Error, Result, ok, err, panic, library, verification_detail, refused, Refusal, OpError,
}

-- The value of an OSSL_PARAM, by the constructor that made it.
pub data Value : Type 0 where
  utf8_string : String → Value
  octet_string : Bytes → Value
  int_value : ℕ → Value
  uint_value : ℕ → Value
  size_value : ℕ → Value
  octets_room : ℕ → Value
  octets_nil : ℕ → Value
  end_mark : Value

-- An OSSL_PARAM; `refs` are the addresses that its fields hold.
pub record Param : Type 0 where
  pub key : String
  pub value : Value
  pub refs : List ℕ

-- What a C function is called with. An address stands for the object at it.
pub data Arg : Type 0 where
  num : ℤ → Arg
  bytes : Bytes → Arg
  str : String → Arg
  ptr : ℕ → Arg
  null : Arg
  params : List Param → Arg

pub record Call : Type 0 where
  pub fn : String
  pub args : List Arg

-- What an EVP_PKEY reports of itself. It does not change while the key lives.
pub record KeyInfo : Type 0 where
  pub type_name : String
  pub bits : ℕ
  pub security_bits : ℕ
  pub size : ℕ

-- What libcrypto answers: the returned int (for a pointer, 0 is NULL), what it writes to the output
-- buffer and to the output length (or returns as an unsigned number), the same of a second output
-- buffer, two texts, a key, and the codes that it pushes onto the error queue.
pub record Reply : Type 0 where
  pub rc : ℤ
  pub out : Bytes
  pub len : ℕ
  pub out2 : Bytes
  pub len2 : ℕ
  pub text : String
  pub text2 : String
  pub key : KeyInfo
  pub errs : List ℕ

pub record World : Type 0 where
  pub lib : List Call → Call → Reply
  pub trace : List Call  -- the latest first
  pub queue : List ℕ  -- the error queue, the oldest first
  pub live : ℕ → ℕ  -- how many references the binding holds on each address
  pub next : ℕ  -- the next address
  pub bad_frees : ℕ  -- releases of an address that was not held

abbrev pub Go {ℓ} : Type ℓ → Type ℓ
Go A = World → Result A × World

module _ {ℓ} {A : Type ℓ} where
  unfoldable pub pure : A → Go A
  pure a w = (ok a, w)

  unfoldable pub fail : Error → Go A
  fail e w = (err e, w)

  unfoldable pub abort : String → Go A
  abort s w = (panic s, w)

  unfoldable pub lift : Result A → Go A
  lift r w = (r, w)

module _ {ℓ κ} {A : Type ℓ} {B : Type κ} where
  abbrev pub continue : Result A → (A → Go B) → Go B
  continue (ok a) f w = f a w
  continue (err e) f w = (err e, w)
  continue (panic s) f w = (panic s, w)

  infixl 5 ◌>>=◌
  unfoldable pub ◌>>=◌ : Go A → (A → Go B) → Go B
  unfolding pure fail abort lift
  ◌>>=◌ m f w = let (r, w') = m w in continue r f w'

infixl 5 ◌>>◌
abbrev pub ◌>>◌ {ℓ κ} : {A : Type ℓ} {B : Type κ} → Go A → Go B → Go B
m >> n = m >>= λ _. n

-- `x, err := m()` where the code goes on with the error in hand. A panic is not caught.
abbrev pub attempt_result {ℓ} : {A : Type ℓ} → Result A → Result (Result A)
attempt_result (ok a) = ok (ok a)
attempt_result (err e) = ok (err e)
attempt_result (panic s) = panic s

unfoldable pub attempt {ℓ} : {A : Type ℓ} → Go A → Go (Result A)
attempt m w = let (r, w') = m w in (attempt_result r, w')

-- `defer cleanup()`: `cleanup` runs after the body, whatever the body ended in. The cleanups of the
-- package return nothing that is read.
unfoldable pub deferred {ℓ} : {A : Type ℓ} → (World → World) → Go A → Go A
deferred cleanup m w = let (r, w') = m w in (r, cleanup w')

-- A call of a C function.
unfoldable pub call : String → List Arg → Go Reply
call f args w =
    let c : Call = record { fn = f; args = args } in
    let r = w.lib w.trace c in (ok r, record w { trace = c ∷ w.trace; queue = w.queue ++ r.errs })

abbrev pub bump : (ℕ → ℕ) → ℕ → ℕ → ℕ
bump live a i = if i == a then suc (live i) else live i

abbrev pub dip : (ℕ → ℕ) → ℕ → ℕ → ℕ
dip live a i = if i == a then live i - 1 else live i

-- A call that returns a new object, or NULL.
unfoldable pub acquire : String → List Arg → Go (Option ℕ)
unfolding call
acquire f args w =
    let r = w.lib w.trace (record { fn = f; args = args }) in
    let w' = (call f args w).1 in
    if eq_ℕ r.rc 0
    then (ok none, w')
    else (ok (some w.next), record w' { live = bump w.live w.next; next = suc w.next })

-- A call that takes another reference on the object at `a`, if it answers 1.
unfoldable pub up_ref : String → ℕ → Go Bool
unfolding call
up_ref f a w =
    let r = w.lib w.trace (record { fn = f; args = ptr a ∷ [] }) in
    let w' = (call f (ptr a ∷ []) w).1 in
    if eq_ℕ r.rc 1 then (ok true, record w' { live = bump w.live a }) else (ok false, w')

-- `C.EVP_..._free(a)`, `C.free(a)`: one reference less.
unfoldable pub release : String → ℕ → World → World
release f a w =
    let w' = record w { trace = record { fn = f; args = ptr a ∷ [] } ∷ w.trace } in
    if w.live a == 0
    then record w' { bad_frees = suc w.bad_frees }
    else record w' { live = dip w.live a }

-- `C.free(a)` in the course of a function, and a call that hands the reference on `a` over to libcrypto.
unfoldable pub free_now : ℕ → Go (Unit {0})
unfolding release
free_now a w = (ok tt, release "free" a w)

unfoldable pub hand_over : ℕ → Go (Unit {0})
hand_over a w = (
  ok tt,
  if w.live a == 0
      then record w { bad_frees = suc w.bad_frees }
      else record w { live = dip w.live a },
)

-- `C.CString(s)`, with its `defer C.free`, around a body.
unfoldable pub with_cstring {ℓ} : {A : Type ℓ} → String → Go A → Go A
unfolding deferred release
with_cstring s body w =
    deferred (release "free" w.next) body
      (record w { live = bump w.live w.next; next = suc w.next })

-- The same for another block of C memory, with the function that frees it.
unfoldable pub with_block {ℓ} : {A : Type ℓ} → String → Go A → Go A
unfolding deferred release
with_block free body w =
    deferred (release free w.next) body (record w { live = bump w.live w.next; next = suc w.next })

-- `for { code := ERR_get_error(); if code == 0 { break }; e.Codes = append(e.Codes, code) }`.
-- `ERR_get_error` takes the oldest entry, and answers 0 if there is none.
pub drain : List ℕ → List ℕ → List ℕ × List ℕ
drain codes [] = (codes, [])
drain codes (code ∷ queue) =
    let rest = drain (codes ++ code ∷ []) queue in if code == 0 then (codes, queue) else rest

-- `newError(op)`, as the error that a function returns.
unfoldable pub new_error {ℓ} : {A : Type ℓ} → String → Go A
unfolding drain
new_error op w =
    let (codes, queue) = drain [] w.queue in
    (err (library (record { op = op; codes = codes })), record w { queue = queue })

-- `detail := newError(op); return fmt.Errorf("%w: %s", ErrVerification, detail)`
unfoldable pub reject_with {ℓ} : {A : Type ℓ} → String → Go A
unfolding drain
reject_with op w =
    let (codes, queue) = drain [] w.queue in
    (err (verification_detail (record { op = op; codes = codes })), record w { queue = queue })

unfoldable pub clear_errors : Go (Unit {0})
clear_errors w = (ok tt, record w { queue = [] })

-- An acquisition with its nil check: `x := C.f(args); if x == nil { return newError(op) }`.
abbrev pub or_new_error : String → Option ℕ → Go ℕ
or_new_error op none = new_error op
or_new_error op (some a) = pure a

unfoldable pub acquire_or : String → List Arg → String → Go ℕ
unfolding new_error pure ◌>>=◌
acquire_or f args op = do a ← acquire f args; or_new_error op a

-- An acquisition with its nil check and the `defer` that releases it, around the rest.
unfoldable pub using {ℓ} : {A : Type ℓ} → String → List Arg → String → String → (ℕ → Go A) → Go A
unfolding acquire_or deferred release ◌>>=◌
using f args op free body = do a ← acquire_or f args op; deferred (release free a) (body a)

-- The same where the nil check does something else.
abbrev pub held {ℓ} : {A : Type ℓ} → Go A → String → (ℕ → Go A) → Option ℕ → Go A
held missing free body none = missing
held missing free body (some a) = deferred (release free a) (body a)

unfoldable pub using_or_else {ℓ} :
    {A : Type ℓ} → String → List Arg → Go A → String → (ℕ → Go A) → Go A
unfolding deferred release ◌>>=◌
using_or_else f args missing free body = acquire f args >>= held missing free body

-- The body makes the object that keeps the reference on `a`; where it returns an error, the source
-- releases that reference first.
abbrev pub give_back {ℓ} : {A : Type ℓ} → String → ℕ → Result A → World → World
give_back free a (err e) w = release free a w
give_back free a r w = w

unfoldable pub owning {ℓ} : {A : Type ℓ} → String → ℕ → Go A → Go A
unfolding release
owning free a m w = let (r, w') = m w in (r, give_back free a r w')

-- An acquisition of an object that the result keeps, with another end where there is none.
abbrev pub make_or {ℓ} : {A : Type ℓ} → Go A → String → (ℕ → Go A) → Option ℕ → Go A
make_or missing free make none = missing
make_or missing free make (some a) = owning free a (make a)

-- `if bad { return newError(op) }` and `if bad { return fmt.Errorf(...) }`
abbrev pub new_error_if : Bool → String → Go (Unit {0})
new_error_if true op = new_error op
new_error_if false op = pure tt

abbrev pub refuse_if : Bool → Refusal → Go (Unit {0})
refuse_if true r = fail (refused r)
refuse_if false r = pure tt

-- A call that must answer 1, and one that must answer a positive number.
unfoldable pub call_one : String → List Arg → String → Go Reply
unfolding call new_error pure ◌>>=◌
call_one f args op = do r ← call f args; if eq_ℕ r.rc 1 then pure r else new_error op

unfoldable pub call_pos : String → List Arg → String → Go Reply
unfolding call new_error pure ◌>>=◌
call_pos f args op = do r ← call f args; if is_nonpos r.rc then new_error op else pure r

-- A buffer of `size` bytes, `make([]byte, size)`, after C wrote `out` to it, cut to its first `n`.
abbrev pub written : ℕ → Bytes → ℕ → Bytes
written size out n = take n (take size (out ++ replicate (size - length out) 0))

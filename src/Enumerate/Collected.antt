-- ===== src/Enumerate/Collected.antt =====
-- What a run of callbacks collects, of the answers that it had.
use ossl_go.Prelude.{
  ℕ, zero, suc, ◌+◌, ◌≤◌, ◌<◌, ◌≡◌, ◌⊎◌, inl, inr, refl, ◌∙◌, sym, ap, subst, arith, Bool, true,
  false, ◌||◌, String, List, [], ◌∷◌, ◌++◌, Option, none, some, leb, leb→le, if◌then◌else◌, length,
  length-append,
}
use ossl_go.Errors.{Result, ok, err, panic}
use ossl_go.Cgo.{World, Call, Reply, pure, ◌>>=◌, continue, call}
use ossl_go.Context.{Context, context_ptr}
use ossl_go.Enumerate.{
  same_name, has_name, NameList, max_names, strdup, name_append, name_of, call_back,
}
use ossl_go.Enumerate.Order.{Distinct, has-same, has-append, append-Distinct}

-- The answers to `n` calls of `get_name`, from the trace `t`.
pub answers : (List Call → Call → Reply) → String → ℕ → List Call → List (Option String)
answers lib get_name zero t = []
answers lib get_name (suc n) t =
    let c : Call = record { fn = get_name; args = [] } in
    name_of (lib t c) ∷ answers lib get_name n (c ∷ t)

-- The names that libcrypto supplied in the run.
abbrev pub supplied : Context → String → String → World → List (Option String)
supplied c do_all get_name w =
    let r : Call = record { fn = do_all; args = context_ptr (some c) ∷ [] } in
    answers w.lib get_name (w.lib w.trace r).len (r ∷ w.trace)

-- One of the names is the same as `s`; NULL is no name.
abbrev pub has_answer : String → List (Option String) → Bool
has_answer s [] = false
has_answer s (none ∷ ns) = has_answer s ns
has_answer s (some x ∷ ns) = same_name s x || has_answer s ns

-- From the list `l`, after the answers `os`, the list `l'`: nothing is lost unless the array overflows.
pub record Collected (l : NameList) (os : List (Option String)) (l' : NameList) : Type 0 where
  pub distinct : Distinct l.items → Distinct l'.items
  pub size : length l'.items ≤ length l.items + length os
  pub fits : l'.overflow ≡ false → l.overflow ≡ false
  pub exact :
      l'.overflow ≡ false
      → (s : String) → has_name s l'.items ≡ (has_name s l.items || has_answer s os)
  pub full : l'.overflow ≡ true → (l.overflow ≡ true) ⊎ (512 < length l.items + length os)

or_false : (b : Bool) → b ≡ (b || false)
or_false true = refl
or_false false = refl

or_or : (a b c : Bool) → ((a || b) || c) ≡ (a || (b || c))
or_or true b c = refl
or_or false b c = refl

nothing-Collected : (l : NameList) → Collected l [] l
nothing-Collected l = record {
  distinct = λ d. d;
  size = omega arith;
  fits = λ e. e;
  exact = λ e s. or_false _;
  full = λ e. inl e;
}

null-Collected : (l : NameList) → Collected l (none ∷ []) l
null-Collected l = record {
  distinct = λ d. d;
  size = omega arith;
  fits = λ e. e;
  exact = λ e s. or_false _;
  full = λ e. inl e;
}

full-Collected :
    (l : NameList) (x : String)
    → leb max_names (length l.items) ≡ true
    → Collected l (some x ∷ []) (record l { overflow = true })
full-Collected l x h = record {
  distinct = λ d. d;
  size = omega arith;
  fits = λ e. absurd (cc e);
  exact = λ e s. absurd (cc e);
  full = λ e. inr (omega (arith, leb→le 512 (length l.items) h));
}

known-Collected :
    (l : NameList) (x : String) → has_name x l.items ≡ true → Collected l (some x ∷ []) l
known-Collected l x h = record {
  distinct = λ d. d;
  size = omega arith;
  fits = λ e. e;
  exact = λ e s. ground (arith, has-same s x l.items, h);
  full = λ e. inl e;
}

new-Collected :
    (l l' : NameList) (x : String)
    → has_name x l.items ≡ false
    → l'.items ≡ l.items ++ x ∷ []
    → l'.overflow ≡ l.overflow
    → Collected l (some x ∷ []) l'
new-Collected l l' x h i o = record {
  distinct = λ d. subst Distinct (sym i) (append-Distinct l.items x d h);
  size = omega (arith, ap length i, length-append l.items (x ∷ []));
  fits = λ e. sym o ∙ e;
  exact = λ e s. ap (has_name s) i ∙ has-append s l.items (x ∷ []) ∙ unfold has_name in refl;
  full = λ e. inl (sym o ∙ e);
}

-- What a step of the collection does to the world: the trace is the one given.
abbrev pub Steps :
    NameList → List (Option String) → World → List Call → Result NameList × World → Type 0
Steps l os w t (ok l', w') = Collected l os l' × (w'.lib ≡ w.lib) × (w'.trace ≡ t)
Steps l os w t (r, w') = ⊥

append_by :
    (l : NameList) (x : String) (w : World) (b d : Bool)
    → leb max_names (length l.items) ≡ b
    → has_name x l.items ≡ d
    → Steps l (some x ∷ []) w w.trace (
        (if b
            then pure (record l { overflow = true })
            else if d
            then pure l
            else (strdup >>= λ a.
                pure (record l { items = l.items ++ x ∷ []; copies = l.copies ++ a ∷ [] })))
          w)
unfolding strdup pure ◌>>=◌
append_by l x w true d p q = (full-Collected l x p, refl, refl)
append_by l x w false true p q = (known-Collected l x q, refl, refl)
append_by l x w false false p q = (new-Collected l _ x q refl refl, refl, refl)

append-Steps :
    (l : NameList) (o : Option String) (w : World) → Steps l (o ∷ []) w w.trace (name_append l o w)
unfolding name_append pure
append-Steps l none w = (null-Collected l, refl, refl)
append-Steps l (some x) w = append_by l x w _ _ refl refl

has_answer-cons :
    (s : String) (o : Option String) (os : List (Option String))
    → has_answer s (o ∷ os) ≡ (has_answer s (o ∷ []) || has_answer s os)
has_answer-cons s none os = refl
has_answer-cons s (some x) os = ground arith

Collected-then :
    (l l' l'' : NameList) (o : Option String) (os : List (Option String))
    → Collected l (o ∷ []) l'
    → Collected l' os l''
    → Collected l (o ∷ os) l''
Collected-then l l' l'' o os p q = record {
  distinct = λ d. q.distinct (p.distinct d);
  size = omega (arith, p.size, q.size);
  fits = λ e. p.fits (q.fits e);
  exact = λ e s.
      q.exact e s
      ∙ ap (λ b. b || has_answer s os) (p.exact (q.fits e) s)
      ∙ or_or (has_name s l.items) (has_answer s (o ∷ [])) (has_answer s os)
      ∙ ap (λ b. has_name s l.items || b) (sym (has_answer-cons s o os));
  full = λ e. elim (q.full e) [
    | inl f ↦ elim (p.full f) [ inl g ↦ inl g | inr g ↦ inr (omega (arith, g)) ]
    | inr f ↦ inr (omega (arith, f, p.size))
  ];
}

pub trace_after : String → ℕ → List Call → List Call
trace_after get_name zero t = t
trace_after get_name (suc n) t = trace_after get_name n (record { fn = get_name; args = [] } ∷ t)

after_step :
    (l l' : NameList) (o : Option String) (os : List (Option String)) (w w' : World) (t : List Call)
    (r : Result NameList) (v : World)
    → Collected l (o ∷ []) l'
    → w'.lib ≡ w.lib
    → Steps l' os w' t (r, v)
    → Steps l (o ∷ os) w t (r, v)
after_step l l' o os w w' t (ok l'') v p e (q, f, g) = (Collected-then l l' l'' o os p q, f ∙ e, g)
after_step l l' o os w w' t (err x) v p e h = h
after_step l l' o os w w' t (panic x) v p e h = h

Steps-then :
    (l : NameList) (o : Option String) (w : World) (t : List Call) (r : Result NameList) (v : World)
    (get_name : String) (n : ℕ)
    → Steps l (o ∷ []) w t (r, v)
    → ((l' : NameList)
        → Steps l'
            (answers v.lib get_name n v.trace)
            v
            (trace_after get_name n v.trace)
            (call_back get_name n l' v))
    → Steps l
        (o ∷ answers w.lib get_name n t)
        w
        (trace_after get_name n t)
        (continue r (call_back get_name n) v)
Steps-then l o w t (ok l') v get_name n (p, e, g) k =
    subst
      (λ lib.
        Steps l (o ∷ answers lib get_name n t) w (trace_after get_name n t)
          (call_back get_name n l' v))
      e
      (subst
        (λ u.
          Steps l (o ∷ answers v.lib get_name n u) w (trace_after get_name n u)
            (call_back get_name n l' v))
        g
        (after_step l l' o _ w v _ (call_back get_name n l' v).0 (call_back get_name n l' v).1 p e
          (k l')))
Steps-then l o w t (err x) v get_name n h k = elim h [ ]
Steps-then l o w t (panic x) v get_name n h k = elim h [ ]

pub call_back-Steps :
    (get_name : String) (n : ℕ) (l : NameList) (w : World)
    → Steps l
        (answers w.lib get_name n w.trace)
        w
        (trace_after get_name n w.trace)
        (call_back get_name n l w)
unfolding call_back answers trace_after call ◌>>=◌ pure
call_back-Steps get_name zero l w = (nothing-Collected l, refl, refl)
call_back-Steps get_name (suc n) l w =
    let o = name_of (w.lib w.trace (record { fn = get_name; args = [] })) in
    let w1 = (call get_name [] w).1 in
    let m = name_append l o w1 in
    Steps-then l o w1 w1.trace m.0 m.1 get_name n (append-Steps l o w1)
      λ l'. call_back-Steps get_name n l' m.1

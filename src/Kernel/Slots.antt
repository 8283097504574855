-- ===== src/Kernel/Slots.antt =====
-- kernel/thread.go: allocThread.
use eggos.Base.{
  ℕ, zero, suc, ◌+◌, ◌<◌, ◌≡◌, refl, sym, ap, subst, true, false, List, [], ◌∷◌, Bool-cases, inl,
  inr, Result, ok, panic, ◌>>=◌, set, length, arith,
}
use eggos.Kernel.Thread.{Thread, initing, thread, alloc_from, is_unused}

-- What allocThread returns: the first free slot, and it panics only where there is none.
pub record Allocated (ts : List Thread) (from i : ℕ) (us : List Thread) : Type 0 where
  pub place : ℕ
  pub number : i ≡ from + place
  pub inside : place < length ts
  pub was_free : is_unused (thread ts place).state ≡ true
  pub table : us ≡ set ts place (record (thread ts place) { id = i; state = initing })

abbrev pub Allocates : List Thread → ℕ → Result (ℕ × List Thread) → Type 0
Allocates ts from (ok (i, us)) = Allocated ts from i us
Allocates ts from panic = (j : ℕ) → j < length ts → is_unused (thread ts j).state ≡ false

alloc_from-hit :
    (from : ℕ) (t : Thread) (ts : List Thread)
    → is_unused t.state ≡ true
    → alloc_from from (t ∷ ts) ≡ ok (from, record t { id = from; state = initing } ∷ ts)
unfolding alloc_from
alloc_from-hit from t ts h = rw h refl

alloc_from-miss :
    (from : ℕ) (t : Thread) (ts : List Thread)
    → is_unused t.state ≡ false
    → alloc_from from (t ∷ ts) ≡ (alloc_from (suc from) ts >>= λ r. ok (r.0, t ∷ r.1))
unfolding alloc_from
alloc_from-miss from t ts h = rw h refl

Allocates-cons :
    (t : Thread) (ts : List Thread) (from : ℕ) (m : Result (ℕ × List Thread))
    → is_unused t.state ≡ false
    → Allocates ts (suc from) m
    → Allocates (t ∷ ts) from (m >>= λ r. ok (r.0, t ∷ r.1))
Allocates-cons t ts from (ok (i, us)) h a = record {
  place = suc a.place;
  number = omega (arith, a.number);
  inside = omega (arith, a.inside);
  was_free = a.was_free;
  table = ap (λ x. t ∷ x) a.table;
}
Allocates-cons t ts from panic h a = later
  where
    later : (j : ℕ) → j < length (t ∷ ts) → is_unused (thread (t ∷ ts) j).state ≡ false
    later zero p = h
    later (suc j) p = a j (omega arith)

-- allocThread takes the first free slot, gives the thread its number and puts it into the state
-- INITING; it panics only where no slot is free.
pub alloc_from-Allocates : (from : ℕ) (ts : List Thread) → Allocates ts from (alloc_from from ts)
unfolding alloc_from
alloc_from-Allocates from [] = λ j p. absurd (omega arith)
alloc_from-Allocates from (t ∷ ts) = elim (Bool-cases (is_unused t.state)) [
  | inl h ↦
      subst (Allocates (t ∷ ts) from) (sym (alloc_from-hit from t ts h)) (record {
        place = 0;
        number = omega arith;
        inside = omega arith;
        was_free = h;
        table = refl;
      })
  | inr h ↦
      subst (Allocates (t ∷ ts) from) (sym (alloc_from-miss from t ts h))
        (Allocates-cons t ts from _ h (alloc_from-Allocates (suc from) ts))
]

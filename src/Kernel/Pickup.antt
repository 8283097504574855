-- ===== src/Kernel/Pickup.antt =====
-- kernel/thread.go: pickup chooses the first thread behind idx, going round the table.
use eggos.Base.{
  ℕ, zero, suc, ◌+◌, ◌-◌, ◌%◌, ◌≤◌, ◌<◌, ◌≡◌, refl, sym, ap, ◌∙◌, subst, Bool, true, false, Option,
  none, some, Bool-cases, inl, inr, arith,
}
use eggos.Kernel.Thread.{Kernel, nthreads, pick_loop, pick_other, pickup, is_wanted, task_ready}

-- The m-th slot behind `curr`.
abbrev pub slot : ℕ → ℕ → ℕ
slot curr m = (curr + m + 1) % nthreads

-- The loop found a wanted slot, at most k places behind the first.
pub record Found (wanted : ℕ → Bool) (curr i k : ℕ) (r : Option ℕ × ℕ) : Type 0 where
  pub place : ℕ
  pub from : i ≤ place
  pub upto : place ≤ k
  pub is_wanted : wanted (slot curr place) ≡ true
  pub result : r ≡ (some (slot curr place), slot curr place)

pick_loop-hit :
    (wanted : ℕ → Bool) (curr left i last : ℕ)
    → wanted (slot curr i) ≡ true
    → pick_loop wanted curr (suc left) i last ≡ (some (slot curr i), slot curr i)
unfolding pick_loop
pick_loop-hit wanted curr left i last h = rw h refl

pick_loop-miss :
    (wanted : ℕ → Bool) (curr left i last : ℕ)
    → wanted (slot curr i) ≡ false
    → pick_loop wanted curr (suc left) i last ≡ pick_loop wanted curr left (suc i) (slot curr i)
unfolding pick_loop
pick_loop-miss wanted curr left i last h = rw h refl

miss-lt :
    (wanted : ℕ → Bool) (curr i k : ℕ)
    → i ≤ k
    → wanted (slot curr k) ≡ true
    → wanted (slot curr i) ≡ false
    → suc i ≤ k
miss-lt wanted curr i k p w h = grind arith

Found-next :
    (wanted : ℕ → Bool) (curr i k : ℕ) (r r' : Option ℕ × ℕ)
    → r' ≡ r
    → Found wanted curr (suc i) k r
    → Found wanted curr i k r'
Found-next wanted curr i k r r' e f = record {
  place = f.place;
  from = omega (arith, f.from);
  upto = f.upto;
  is_wanted = f.is_wanted;
  result = e ∙ f.result;
}

pick_loop-Found :
    (wanted : ℕ → Bool) (curr left i last k : ℕ)
    → i ≤ k
    → k < i + left
    → wanted (slot curr k) ≡ true
    → Found wanted curr i k (pick_loop wanted curr left i last)
pick_loop-Found wanted curr zero i last k p q w = absurd (omega arith)
pick_loop-Found wanted curr (suc left) i last k p q w = elim (Bool-cases (wanted (slot curr i))) [
  | inl h ↦ record {
    place = i;
    from = omega arith;
    upto = p;
    is_wanted = h;
    result = pick_loop-hit wanted curr left i last h;
  }
  | inr h ↦ Found-next wanted curr i k _ _ (pick_loop-miss wanted curr left i last h) (
      pick_loop-Found wanted curr left (suc i) (slot curr i) k (miss-lt wanted curr i k p w h)
        (omega arith) w)
]

-- How many slots pickup passes over before it comes to slot j.
abbrev pub distance : ℕ → ℕ → ℕ
distance curr j = (j + nthreads - slot curr 0) % nthreads

slot-distance : (curr j : ℕ) → j < nthreads → slot curr (distance curr j) ≡ j
slot-distance curr j h = omega arith

distance-slot : (curr m : ℕ) → m < nthreads → distance curr (slot curr m) ≡ m
distance-slot curr m h = omega arith

-- Neither the trap task nor the syscall task can run.
pub record IsQuiet (k : Kernel) : Type 0 where
  pub trap : task_ready k k.traptask ≡ none
  pub syscall : task_ready k k.syscalltask ≡ none

pickup-quiet : (k : Kernel) → IsQuiet k → pickup k ≡ pick_other k
unfolding pickup
pickup-quiet k q = rw (q.trap, q.syscall) refl

-- What pickup returns while slot j is runnable.
pub record Nearest (k : Kernel) (j : ℕ) (r : ℕ × ℕ) : Type 0 where
  pub is_wanted : is_wanted k r.0 ≡ true
  pub below : r.0 < nthreads
  pub same_idx : r.1 ≡ r.0
  pub nearer : distance k.idx r.0 ≤ distance k.idx j

pick_other-Nearest :
    (k : Kernel) (j : ℕ)
    → j < nthreads
    → Found
        (is_wanted k)
        k.idx
        0
        (distance k.idx j)
        (pick_loop (is_wanted k) k.idx nthreads 0 k.idx)
    → Nearest k j (pick_other k)
unfolding pick_other
pick_other-Nearest k j h f = rw f.result (record {
  is_wanted = f.is_wanted;
  below = omega arith;
  same_idx = refl;
  nearer = omega (arith, distance-slot k.idx f.place (omega (arith, f.upto)), f.upto);
})

-- While the trap and the syscall task are not runnable and slot j is, other than the idle thread,
-- pickup chooses a runnable thread that is not idle and comes no later than j behind idx, and
-- moves idx to it.
pub pickup-Nearest :
    (k : Kernel) (j : ℕ) → IsQuiet k → j < nthreads → is_wanted k j ≡ true → Nearest k j (pickup k)
pickup-Nearest k j q h w = subst (Nearest k j) (sym (pickup-quiet k q)) (
    pick_other-Nearest k j h (
      pick_loop-Found (is_wanted k) k.idx nthreads 0 k.idx (distance k.idx j) (omega arith)
        (omega arith) (ap (is_wanted k) (slot-distance k.idx j h) ∙ w)))

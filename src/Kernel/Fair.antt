-- ===== src/Kernel/Fair.antt =====
-- kernel/thread.go: every runnable thread runs again, and so does one that has called exit.
use eggos.Base.{
  ℕ, zero, suc, ◌≤◌, ◌<◌, ◌≡◌, ◌≢◌, refl, sym, ap, ◌∙◌, subst, true, List, [], ◌∷◌, set, length,
  get_or-set_self, arith, ℕ_discrete,
}
use eggos.Kernel.Thread.{
  Thread, runnable, exited, free_slot, Kernel, thread, nthreads, pickup, is_wanted, to_scheduler,
  yield, exit, schedule,
}
use eggos.Kernel.Pickup.{IsQuiet, Nearest, distance, pickup-Nearest}

-- The thread tables that successive rounds of `schedule` meet: idx goes from round to round, and
-- between two rounds the running threads and the interrupts change the rest as they like.
abbrev pub round : Kernel → ℕ → ℕ × ℕ
round k idx = pickup (record k { idx = idx })

unfoldable pub picked : (ℕ → Kernel) → ℕ → ℕ → ℕ
picked ks idx zero = (round (ks 0) idx).0
picked ks idx (suc n) = picked (λ m. ks (suc m)) (round (ks 0) idx).1 n

-- Slot j waits in every round.
pub record Waits (j : ℕ) (ks : ℕ → Kernel) : Type 0 where
  pub quiet : (n i : ℕ) → IsQuiet (record (ks n) { idx = i })
  pub wanted : (n i : ℕ) → is_wanted (record (ks n) { idx = i }) j ≡ true

nearer_next :
    (i r j : ℕ)
    → r < nthreads
    → j < nthreads
    → r ≢ j
    → distance i r ≤ distance i j
    → distance r j < distance i j
nearer_next i r j p q ne h = omega arith

Waits-tail : (j : ℕ) (ks : ℕ → Kernel) → Waits j ks → Waits j (λ m. ks (suc m))
Waits-tail j ks w = record { quiet = λ n. w.quiet (suc n); wanted = λ n. w.wanted (suc n) }

moved :
    (i j : ℕ) (ks : ℕ → Kernel)
    → j < nthreads
    → Waits j ks
    → (round (ks 0) i).0 ≢ j
    → distance (round (ks 0) i).1 j < distance i j
moved i j ks h w differ =
    subst (λ x. distance x j < distance i j) (sym near.same_idx)
      (nearer_next i (round (ks 0) i).0 j near.below h differ near.nearer)
  where
    near : Nearest (record (ks 0) { idx = i }) j (round (ks 0) i)
    near = pickup-Nearest _ j (w.quiet 0 i) h (w.wanted 0 i)

picked-bound :
    (d i j : ℕ) (ks : ℕ → Kernel)
    → j < nthreads
    → Waits j ks
    → distance i j ≤ d
    → (n : ℕ) × (n ≤ d) × (picked ks i n ≡ j)
unfolding picked
picked-bound zero i j ks h w p = elim (ℕ_discrete (round (ks 0) i).0 j) [
  | yes same ↦ (0, omega arith, same)
  | no differ ↦ absurd (omega (arith, moved i j ks h w differ, p))
]
picked-bound (suc d) i j ks h w p = elim (ℕ_discrete (round (ks 0) i).0 j) [
  | yes same ↦ (0, omega arith, same)
  | no differ ↦
      let (n, q, e) =
        picked-bound d (round (ks 0) i).1 j (λ m. ks (suc m)) h (Waits-tail j ks w)
          (omega (arith, moved i j ks h w differ, p)) in
      (suc n, omega arith, e)
]

-- A thread that stays runnable is chosen within twenty rounds of the scheduler, if neither the
-- trap task nor the syscall task is runnable in these rounds.
pub picked_soon :
    (i j : ℕ) (ks : ℕ → Kernel)
    → j < nthreads
    → Waits j ks
    → (n : ℕ) × (n < nthreads) × (picked ks i n ≡ j)
picked_soon i j ks h w =
    let (n, p, e) = picked-bound 19 i j ks h w (omega arith) in (n, omega arith, e)

set-set {ℓ} : {A : Type ℓ} (xs : List A) (i : ℕ) (v w : A) → set (set xs i v) i w ≡ set xs i w
set-set [] i v w = refl
set-set (x ∷ xs) zero v w = refl
set-set (x ∷ xs) (suc i) v w = ap (λ ys. x ∷ ys) (set-set xs i v w)

-- What exit does is what yield does: its state EXIT is overwritten with RUNNABLE before the
-- scheduler sees it, so the thread is chosen again.
pub exit-eq-yield : (k : Kernel) → k.current < length k.threads → exit k ≡ yield k
unfolding exit yield to_scheduler
exit-eq-yield k h = ap (λ ts. schedule (record k { threads = ts })) same
  where
    t : Thread
    t = thread k.threads k.current

    same :
        set
          (set k.threads k.current (record t { state = exited }))
          k.current
          (record (thread (set k.threads k.current (record t { state = exited })) k.current) {
            state = runnable;
          })
        ≡ set k.threads k.current (record t { state = runnable })
    same =
        set-set k.threads k.current _ _
        ∙ ap (λ (u : Thread). set k.threads k.current (record u { state = runnable }))
            (get_or-set_self k.threads k.current (record t { state = exited }) free_slot h)

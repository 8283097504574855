-- ===== src/Kernel/Steps.antt =====
-- kernel/thread.go and kernel/lock.go: the calls of the running thread and of the interrupts, in any
-- order, keep the thread table valid.
use eggos.Base.{
  ℕ, ◌<◌, ◌≡◌, ◌≢◌, sym, ap, ◌∙◌, subst, true, List, Result, ok, panic, ◌>>=◌, set, get_or-set_self,
  get_or-set_ne, arith, ℕ_discrete,
}
use eggos.Kernel.Thread.{
  Thread, initing, runnable, free_slot, Kernel, thread, nthreads, set_state, yield, exit, sleepon,
  wakeup, alloc_from, is_unused, clone, alloc_thread,
}
use eggos.Kernel.Fair.{exit-eq-yield}
use eggos.Kernel.Slots.{Allocated, Allocates, alloc_from-Allocates}
use eggos.Kernel.Waking.{wakeup-IsValid}
use eggos.Kernel.Valid.{set-IsTable, IsValid, runs, rests, yield-IsValid, sleepon-IsValid}

-- Replacing a thread that does not run by one that rests.
replaced-IsValid :
    (k : Kernel) (i : ℕ) (t : Thread)
    → IsValid k
    → i < nthreads
    → i ≢ k.current
    → rests t ≡ true
    → IsValid (record k { threads = set k.threads i t })
replaced-IsValid k i t v below ne r = record {
  table = set-IsTable k i t v.table;
  current_runs = ap runs (get_or-set_ne k.threads i k.current t free_slot ne) ∙ v.current_runs;
  others_rest = λ j d. elim (ℕ_discrete i j) [
    | yes e ↦
        ap (λ x. rests (thread (set k.threads i t) x)) (sym e)
        ∙ ap rests
            (get_or-set_self k.threads i t free_slot (omega (arith, v.table.length_threads, below)))
        ∙ r
    | no n ↦ ap rests (get_or-set_ne k.threads i j t free_slot n) ∙ v.others_rest j d
  ];
}

-- A result of clone that is valid, if there is one.
abbrev Cloned : Result (ℕ × Kernel) → Type 0
Cloned (ok (i, k)) = IsValid k
Cloned panic = ℕ

runs-used : (t : Thread) → runs t ≡ true → is_unused t.state ≢ true
unfolding runs
runs-used t h free = ground arith

free-other :
    (k : Kernel) (i : ℕ) → IsValid k → is_unused (thread k.threads i).state ≡ true → i ≢ k.current
free-other k i v free e =
    runs-used (thread k.threads i) (ap (λ j. runs (thread k.threads j)) e ∙ v.current_runs) free

initing-rests :
    (t : Thread) (i : ℕ) → rests t ≡ true → rests (record t { id = i; state = initing }) ≡ true
unfolding rests
initing-rests t i h = ground arith

runnable-rests : (t : Thread) → rests t ≡ true → rests (record t { state = runnable }) ≡ true
unfolding rests
runnable-rests t h = ground arith

Allocated-IsValid :
    (k : Kernel) (i : ℕ) (us : List Thread)
    → IsValid k
    → Allocated k.threads 0 i us
    → IsValid (set_state (record k { threads = us }) i runnable)
Allocated-IsValid k i us v a =
    replaced-IsValid k' i _ valid (omega (arith, a.number, a.inside, v.table.length_threads)) other
      (runnable-rests (thread us i) (valid.others_rest i other))
  where
    k' : Kernel
    k' = record k { threads = us }

    same : a.place ≡ i
    same = omega (arith, a.number)

    other : i ≢ k.current
    other = subst (λ x. x ≢ k.current) same (free-other k a.place v a.was_free)

    valid : IsValid k'
    valid =
        subst (λ ts. IsValid (record k { threads = ts })) (sym a.table)
          (replaced-IsValid k a.place _ v (omega (arith, a.inside, v.table.length_threads))
            (free-other k a.place v a.was_free)
            (initing-rests (thread k.threads a.place) i
              (v.others_rest a.place (free-other k a.place v a.was_free))))

clone-Cloned :
    (k : Kernel) (m : Result (ℕ × List Thread))
    → IsValid k
    → Allocates k.threads 0 m
    → Cloned (
        ◌>>=◌ {A = ℕ × Kernel}
          (m >>= (λ r. ok (r.0, record k { threads = r.1 })))
          (λ r. ok (r.0, set_state r.1 r.0 runnable)))
clone-Cloned k (ok (i, us)) v a = Allocated-IsValid k i us v a
clone-Cloned k panic v a = 0

clone-IsValid : (k k' : Kernel) (i : ℕ) → IsValid k → clone k ≡ ok (i, k') → IsValid k'
unfolding clone alloc_thread
clone-IsValid k k' i v e =
    subst Cloned e (clone-Cloned k (alloc_from 0 k.threads) v (alloc_from-Allocates 0 k.threads))

-- One call: by the running thread, or a wakeup by an interrupt.
pub data Step : Kernel → Kernel → Type 0 where
  yielded : (k : Kernel) → Step k (yield k)
  left : (k : Kernel) → Step k (exit k)
  slept : (k : Kernel) (lock : ℕ) → Step k (sleepon k lock)
  woke : (k : Kernel) (lock limit : ℕ) → lock ≢ 0 → Step k (wakeup k lock limit)
  cloned : (k k' : Kernel) (i : ℕ) → clone k ≡ ok (i, k') → Step k k'

pub data Steps : Kernel → Kernel → Type 0 where
  stop : (k : Kernel) → Steps k k
  next : (k l m : Kernel) → Step k l → Steps l m → Steps k m

Step-IsValid : (k l : Kernel) → Step k l → IsValid k → IsValid l
Step-IsValid _ _ (yielded k) v = yield-IsValid k v
Step-IsValid _ _ (left k) v =
    subst IsValid
      (sym (exit-eq-yield k (omega (arith, v.table.length_threads, v.table.current_below))))
      (yield-IsValid k v)
Step-IsValid _ _ (slept k lock) v = sleepon-IsValid k lock v
Step-IsValid _ _ (woke k lock limit ne) v = wakeup-IsValid k lock limit ne v
Step-IsValid _ _ (cloned k l i e) v = clone-IsValid k l i v e

-- However Yield, exit, sleepon, clone and wakeups follow each other, from a valid thread table
-- they lead to one: Mythread() is the only running thread, and a thread has a sleep key only
-- inside sleepon.
pub Steps-IsValid : (k l : Kernel) → Steps k l → IsValid k → IsValid l
Steps-IsValid _ _ (stop k) v = v
Steps-IsValid _ _ (next k l m s ss) v = Steps-IsValid l m ss (Step-IsValid k l s v)

-- ===== src/Kernel/Valid.antt =====
-- kernel/thread.go and kernel/lock.go: one thread runs, and only a thread that is inside sleepon
-- has a sleep key. This holds in whatever order the calls come.
use eggos.Base.{
  ℕ, zero, suc, ◌<◌, ◌≡◌, ◌≢◌, refl, sym, ap, ◌∙◌, subst, Bool, true, false, ◌&&◌, ◌||◌, not, List,
  ◌==◌, Option, none, some, Option-cases, inl, inr, set, length, length-set, get_or-set_self,
  get_or-set_ne, arith, ℕ_discrete,
}
use eggos.Kernel.Thread.{
  Thread, State, sleeping, runnable, running, free_slot, Kernel, thread, nthreads, resumed, pickup,
  pick_loop, pick_other, pick_first, task_ready, is_wanted, schedule, to_scheduler, yield,
  fall_asleep, sleepon,
}
use eggos.Kernel.Pickup.{slot}

abbrev pub is_running : State → Bool
is_running running = true
is_running _ = false

-- A thread that does not run, and has a key only inside sleepon.
unfoldable pub rests : Thread → Bool
rests t = not (is_running t.state) && (t.sleep_key == 0 || t.in_sleepon)

-- A thread that runs, outside sleepon and without a key.
unfoldable pub runs : Thread → Bool
runs t = is_running t.state && (t.sleep_key == 0 && not t.in_sleepon)

-- The parts that no call changes or that stay in the table.
pub record IsTable (k : Kernel) : Type 0 where
  pub length_threads : length k.threads ≡ nthreads
  pub current_below : k.current < nthreads
  pub idle_below : k.idle < nthreads
  pub trap_below : (i : ℕ) → k.traptask ≡ some i → i < nthreads
  pub syscall_below : (i : ℕ) → k.syscalltask ≡ some i → i < nthreads

-- One thread runs: Mythread().
pub record IsValid (k : Kernel) : Type 0 where
  pub table : IsTable k
  pub current_runs : runs (thread k.threads k.current) ≡ true
  pub others_rest : (i : ℕ) → i ≢ k.current → rests (thread k.threads i) ≡ true

-- The scheduler runs, and no thread.
pub record IsBetween (k : Kernel) : Type 0 where
  pub table : IsTable k
  pub all_rest : (i : ℕ) → rests (thread k.threads i) ≡ true

-- Where a thread of the table is replaced.
thread-set :
    (P : Thread → Type 0) (ts : List Thread) (c : ℕ) (t : Thread)
    → c < length ts
    → P t
    → ((i : ℕ) → i ≢ c → P (thread ts i))
    → (i : ℕ) → P (thread (set ts c t) i)
thread-set P ts c t h p others i = elim (ℕ_discrete c i) [
  | yes e ↦
      subst (λ j. P (thread (set ts c t) j)) e
        (subst P (sym (get_or-set_self ts c t free_slot h)) p)
  | no ne ↦ subst P (sym (get_or-set_ne ts c i t free_slot ne)) (others i (λ e. ne (sym e)))
]

pub set-IsTable :
    (k : Kernel) (c : ℕ) (t : Thread)
    → IsTable k
    → IsTable (record k { threads = set k.threads c t })
set-IsTable k c t v = record {
  length_threads = length-set k.threads c t ∙ v.length_threads;
  current_below = v.current_below;
  idle_below = v.idle_below;
  trap_below = v.trap_below;
  syscall_below = v.syscall_below;
}

-- A switch to the scheduler with the current thread in a state that rests.
leave-IsBetween :
    (k : Kernel) (t : Thread)
    → IsValid k
    → rests t ≡ true
    → IsBetween (record k { threads = set k.threads k.current t })
leave-IsBetween k t v r = record {
  table = set-IsTable k k.current t v.table;
  all_rest =
      thread-set (λ u. rests u ≡ true) k.threads k.current t
        (omega (arith, v.table.length_threads, v.table.current_below)) r v.others_rest;
}

pick_loop-below :
    (wanted : ℕ → Bool) (curr left i last j : ℕ)
    → (pick_loop wanted curr left i last).0 ≡ some j
    → j < nthreads
unfolding pick_loop
pick_loop-below wanted curr zero i last j e = cc
pick_loop-below wanted curr (suc left) i last j e =
    ground (arith, pick_loop-below wanted curr left (suc i) (slot curr i) j)

task_ready-below :
    (k : Kernel) (o : Option ℕ) (j : ℕ)
    → ((i : ℕ) → o ≡ some i → i < nthreads)
    → task_ready k o ≡ some j
    → j < nthreads
task_ready-below k none j h e = cc
task_ready-below k (some i) j h e = ground (arith, h i refl)

pick_other-below : (k : Kernel) → k.idle < nthreads → (pick_other k).0 < nthreads
unfolding pick_other
pick_other-below k h = elim (Option-cases (pick_loop (is_wanted k) k.idx nthreads 0 k.idx).0) [
  | inl e ↦ rw e h
  | inr (j, e) ↦ rw e (pick_loop-below (is_wanted k) k.idx nthreads 0 k.idx j e)
]

pick_first-below :
    (o : Option ℕ) (idx : ℕ) (other : ℕ × ℕ)
    → ((j : ℕ) → o ≡ some j → j < nthreads)
    → other.0 < nthreads
    → (pick_first o idx other).0 < nthreads
pick_first-below none idx other h p = p
pick_first-below (some i) idx other h p = h i refl

pickup-below : (k : Kernel) → IsTable k → (pickup k).0 < nthreads
unfolding pickup
pickup-below k v =
    pick_first-below (task_ready k k.traptask) k.idx _
      (λ j. task_ready-below k k.traptask j v.trap_below)
      (pick_first-below (task_ready k k.syscalltask) k.idx _
        (λ j. task_ready-below k k.syscalltask j v.syscall_below) (pick_other-below k v.idle_below))

resumed-runs : (t : Thread) → rests t ≡ true → runs (resumed t) ≡ true
unfolding rests runs
resumed-runs t h = ground arith

schedule-IsValid : (k : Kernel) → IsBetween k → IsValid (schedule k)
unfolding schedule
schedule-IsValid k b = record {
  table = record {
    length_threads = length-set k.threads t _ ∙ b.table.length_threads;
    current_below = below;
    idle_below = b.table.idle_below;
    trap_below = b.table.trap_below;
    syscall_below = b.table.syscall_below;
  };
  current_runs =
      ap runs (get_or-set_self k.threads t (resumed (thread k.threads t)) free_slot inside)
      ∙ resumed-runs (thread k.threads t) (b.all_rest t);
  others_rest = λ i ne.
      ap rests
        (get_or-set_ne k.threads t i (resumed (thread k.threads t)) free_slot (λ e. ne (sym e)))
      ∙ b.all_rest i;
}
  where
    t : ℕ
    t = (pickup k).0

    below : t < nthreads
    below = pickup-below k b.table

    inside : t < length k.threads
    inside = omega (arith, below, b.table.length_threads)

yielded-rests : (t : Thread) → runs t ≡ true → rests (record t { state = runnable }) ≡ true
unfolding rests runs
yielded-rests t h = ground arith

asleep-rests :
    (t : Thread) (lock : ℕ)
    → rests (record t { state = sleeping; sleep_key = lock; in_sleepon = true }) ≡ true
unfolding rests
asleep-rests t lock = ground arith

-- A call of Yield or sleepon by the running thread.
pub yield-IsValid : (k : Kernel) → IsValid k → IsValid (yield k)
unfolding yield to_scheduler
yield-IsValid k v = schedule-IsValid _ (leave-IsBetween k _ v (yielded-rests _ v.current_runs))

pub sleepon-IsValid : (k : Kernel) (lock : ℕ) → IsValid k → IsValid (sleepon k lock)
unfolding sleepon fall_asleep
sleepon-IsValid k lock v =
    schedule-IsValid _ (leave-IsBetween k _ v (asleep-rests (thread k.threads k.current) lock))

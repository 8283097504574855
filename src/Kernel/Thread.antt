-- ===== src/Kernel/Thread.antt =====
-- kernel/thread.go and kernel/lock.go: the thread table and the calls that change it. A pointer to
-- a thread is its index in `threads`, a lock is its address. The register contexts, the stacks,
-- the trap frames and the accounting of time are not part of the model; of a saved context it
-- keeps whether it stands in sleepon.
use eggos.Base.{
  ℕ, zero, suc, ◌+◌, ◌%◌, Bool, true, false, Option, none, some, List, [], ◌∷◌, ◌&&◌, not, ltb,
  ◌==◌, if◌then◌else◌, get_or, set, Result, ok, panic, ◌>>=◌,
}

abbrev pub nthreads : ℕ
nthreads = 20

pub data State : Type 0 where
  unused initing sleeping runnable running exited : State

pub record Thread : Type 0 where
  pub id : ℕ
  pub state : State
  pub sleep_key : ℕ
  pub in_sleepon : Bool

abbrev pub free_slot : Thread
free_slot = record { id = 0; state = unused; sleep_key = 0; in_sleepon = false }

-- threads, Mythread(), the idx of `schedule`, idle_thread, traptask and syscalltask.
pub record Kernel : Type 0 where
  pub threads : List Thread
  pub current : ℕ
  pub idx : ℕ
  pub idle : ℕ
  pub traptask : Option ℕ
  pub syscalltask : Option ℕ

abbrev pub thread : List Thread → ℕ → Thread
thread ts i = get_or ts i free_slot

abbrev pub is_runnable : State → Bool
is_runnable runnable = true
is_runnable _ = false

abbrev pub is_unused : State → Bool
is_unused unused = true
is_unused _ = false

-- allocThread: the first free slot, numbered and in the state INITING.
unfoldable pub alloc_from : ℕ → List Thread → Result (ℕ × List Thread)
alloc_from i [] = panic
alloc_from i (t ∷ ts) =
    let rest : Result (ℕ × List Thread) = alloc_from (suc i) ts >>= λ r. ok (r.0, t ∷ r.1) in
    if is_unused t.state then ok (i, record t { id = i; state = initing } ∷ ts) else rest

unfoldable pub alloc_thread : Kernel → Result (ℕ × Kernel)
alloc_thread k = alloc_from 0 k.threads >>= λ r. ok (r.0, record k { threads = r.1 })

abbrev pub set_state : Kernel → ℕ → State → Kernel
set_state k i s = record k { threads = set k.threads i (record (thread k.threads i) { state = s }) }

-- The new thread returns to user code, so its context is trapret.
unfoldable pub clone : Kernel → Result (ℕ × Kernel)
clone k = alloc_thread k >>= λ r. ok (r.0, set_state r.1 r.0 runnable)

-- The loop of pickup: `left` rounds from i on, `last` what *pidx holds.
unfoldable pub pick_loop : (ℕ → Bool) → ℕ → ℕ → ℕ → ℕ → Option ℕ × ℕ
pick_loop wanted curr zero i last = (none, last)
pick_loop wanted curr (suc left) i last =
    let rest = pick_loop wanted curr left (suc i) ((curr + i + 1) % nthreads) in
    if wanted ((curr + i + 1) % nthreads)
    then (some ((curr + i + 1) % nthreads), (curr + i + 1) % nthreads)
    else rest

-- tt.state == RUNNABLE && tt != idle_thread.ptr()
abbrev pub is_wanted : Kernel → ℕ → Bool
is_wanted k i = is_runnable (thread k.threads i).state && not (i == k.idle)

-- The task, if it is set and runnable.
abbrev pub task_ready : Kernel → Option ℕ → Option ℕ
task_ready k none = none
task_ready k (some i) = if is_runnable (thread k.threads i).state then some i else none

abbrev pub or_else : Option ℕ → ℕ → ℕ
or_else none d = d
or_else (some i) d = i

unfoldable pub pick_other : Kernel → ℕ × ℕ
pick_other k =
    let (found, idx) = pick_loop (is_wanted k) k.idx nthreads 0 k.idx in (or_else found k.idle, idx)

abbrev pub pick_first : Option ℕ → ℕ → ℕ × ℕ → ℕ × ℕ
pick_first none idx other = other
pick_first (some i) idx other = (i, idx)

-- The thread that runs next, and the new idx.
unfoldable pub pickup : Kernel → ℕ × ℕ
pickup k =
    pick_first (task_ready k k.traptask) k.idx
      (pick_first (task_ready k k.syscalltask) k.idx (pick_other k))

-- What a thread does when its context goes on: behind Sched, sleepon clears the key.
abbrev pub resumed : Thread → Thread
resumed t =
    if t.in_sleepon
    then record t { state = running; sleep_key = 0; in_sleepon = false }
    else record t { state = running }

-- One round of `schedule`: pickup and switchto, up to the code of the thread.
unfoldable pub schedule : Kernel → Kernel
schedule k =
    let (t, idx) = pickup k in
    record k { threads = set k.threads t (resumed (thread k.threads t)); current = t; idx = idx }

-- Yield up to the switch to the scheduler.
unfoldable pub to_scheduler : Kernel → Kernel
to_scheduler k = set_state k k.current runnable

unfoldable pub yield : Kernel → Kernel
yield k = schedule (to_scheduler k)

unfoldable pub exit : Kernel → Kernel
exit k = yield (set_state k k.current exited)

-- sleepon up to its call of Sched, and to the next thread.
unfoldable pub fall_asleep : Kernel → ℕ → Kernel
fall_asleep k lock =
    let t = record (thread k.threads k.current) {
      state = sleeping;
      sleep_key = lock;
      in_sleepon = true;
    } in
    record k { threads = set k.threads k.current t }

unfoldable pub sleepon : Kernel → ℕ → Kernel
sleepon k lock = schedule (fall_asleep k lock)

-- The loop of wakeup, with cnt threads woken so far.
unfoldable pub wake_from : ℕ → ℕ → ℕ → List Thread → List Thread
wake_from lock limit cnt [] = []
wake_from lock limit cnt (t ∷ ts) =
    let woken = t.sleep_key == lock && ltb cnt limit in
    let rest = wake_from lock limit (if woken then suc cnt else cnt) ts in
    (if woken then record t { state = runnable } else t) ∷ rest

-- The limit is a uint: -1 stands for the greatest.
unfoldable pub wakeup : Kernel → ℕ → ℕ → Kernel
wakeup k lock limit = record k { threads = wake_from lock limit 0 k.threads }

-- ===== src/Kernel/Note/Kept.antt =====
-- kernel/thread.go and kernel/lock.go: the threads that sleep on a word, before and behind a call.
use eggos.Base.{
  ℕ, zero, suc, ◌≡◌, ◌≢◌, refl, sym, subst, Bool, true, false, List, [], ◌∷◌, ◌&&◌, ltb, ◌==◌,
  Result, ok, panic, ◌>>=◌, set, arith, if◌then◌else◌,
}
use eggos.Kernel.Thread.{
  Thread, State, sleeping, runnable, exited, Kernel, thread, set_state, resumed, schedule,
  to_scheduler, yield, exit, fall_asleep, sleepon, wake_from, wakeup, alloc_from, alloc_thread,
  clone,
}
use eggos.Kernel.Slots.{Allocated, Allocates, alloc_from-Allocates}
use eggos.Kernel.Steps.{Step, yielded, left, slept, woke, cloned}

abbrev pub is_sleeping : State → Bool
is_sleeping sleeping = true
is_sleeping _ = false

abbrev pub has_key : ℕ → Thread → Bool
has_key lock t = t.sleep_key == lock

abbrev pub asleep_on : ℕ → Thread → Bool
asleep_on lock t = is_sleeping t.state && has_key lock t

-- From t to u the thread has not begun to sleep on the lock.
abbrev pub Keeps : ℕ → Thread → Thread → Type 0
Keeps lock t u =
    (has_key lock u ≡ true → has_key lock t ≡ true)
    × (asleep_on lock u ≡ true → asleep_on lock t ≡ true)

abbrev pub AllKeep : ℕ → List Thread → List Thread → Type 0
AllKeep lock ts us = (i : ℕ) → Keeps lock (thread ts i) (thread us i)

Keeps-refl : (lock : ℕ) (t : Thread) → Keeps lock t t
Keeps-refl lock t = ((λ h. h), (λ h. h))

AllKeep-refl : (lock : ℕ) (ts : List Thread) → AllKeep lock ts ts
AllKeep-refl lock ts = λ i. Keeps-refl lock (thread ts i)

AllKeep-trans :
    (lock : ℕ) (ts us vs : List Thread)
    → AllKeep lock ts us
    → AllKeep lock us vs
    → AllKeep lock ts vs
AllKeep-trans lock ts us vs a b = λ i. ((λ h. (a i).0 ((b i).0 h)), (λ h. (a i).1 ((b i).1 h)))

cons-AllKeep :
    (lock : ℕ) (t u : Thread) (ts us : List Thread)
    → Keeps lock t u
    → AllKeep lock ts us
    → AllKeep lock (t ∷ ts) (u ∷ us)
cons-AllKeep lock t u ts us h hs zero = h
cons-AllKeep lock t u ts us h hs (suc i) = hs i

set-AllKeep :
    (lock : ℕ) (ts : List Thread) (j : ℕ) (u : Thread)
    → Keeps lock (thread ts j) u
    → AllKeep lock ts (set ts j u)
set-AllKeep lock [] j u h = AllKeep-refl lock []
set-AllKeep lock (t ∷ ts) zero u h = cons-AllKeep lock t u ts ts h (AllKeep-refl lock ts)
set-AllKeep lock (t ∷ ts) (suc j) u h =
    cons-AllKeep lock t t ts (set ts j u) (Keeps-refl lock t) (set-AllKeep lock ts j u h)

-- A thread that wakeup passes by or wakes.
wake-Keeps :
    (lock : ℕ) (t : Thread) (woken : Bool)
    → Keeps lock t (if woken then record t { state = runnable } else t)
wake-Keeps lock t true = ((λ h. h), (λ h. absurd (ground (arith, h))))
wake-Keeps lock t false = Keeps-refl lock t

pub wake_from-AllKeep :
    (lock key limit cnt : ℕ) (ts : List Thread) → AllKeep lock ts (wake_from key limit cnt ts)
unfolding wake_from
wake_from-AllKeep lock key limit cnt [] = AllKeep-refl lock []
wake_from-AllKeep lock key limit cnt (t ∷ ts) =
    let woken = t.sleep_key == key && ltb cnt limit in
    cons-AllKeep lock t (if woken then record t { state = runnable } else t) ts _
      (wake-Keeps lock t woken)
      (wake_from-AllKeep lock key limit (if woken then suc cnt else cnt) ts)

-- A thread that goes on has no key, or the one it had.
resumed-Keeps : (lock : ℕ) (t : Thread) → lock ≢ 0 → Keeps lock t (resumed t)
resumed-Keeps lock t ne = ((λ h. ground (arith, h, ne)), (λ h. ground (arith, h, ne)))

pub schedule-AllKeep :
    (lock : ℕ) (k : Kernel) → lock ≢ 0 → AllKeep lock k.threads (schedule k).threads
unfolding schedule
schedule-AllKeep lock k ne = set-AllKeep lock k.threads _ _ (resumed-Keeps lock _ ne)

-- A state other than SLEEPING.
set_state-AllKeep :
    (lock : ℕ) (k : Kernel) (i : ℕ) (s : State)
    → is_sleeping s ≡ false
    → AllKeep lock k.threads (set_state k i s).threads
set_state-AllKeep lock k i s h =
    set-AllKeep lock k.threads i _ ((λ e. e), (λ e. absurd (ground (arith, h, e))))

yield-AllKeep : (lock : ℕ) (k : Kernel) → lock ≢ 0 → AllKeep lock k.threads (yield k).threads
unfolding yield to_scheduler
yield-AllKeep lock k ne =
    AllKeep-trans lock _ (to_scheduler k).threads _
      (set_state-AllKeep lock k k.current runnable refl) (schedule-AllKeep lock (to_scheduler k) ne)

pub sleepon-AllKeep :
    (lock key : ℕ) (k : Kernel)
    → lock ≢ 0
    → key ≢ lock
    → AllKeep lock k.threads (sleepon k key).threads
unfolding sleepon fall_asleep
sleepon-AllKeep lock key k ne other =
    AllKeep-trans lock _ (fall_asleep k key).threads _
      (set-AllKeep lock k.threads k.current _
        ((λ h. absurd (ground (arith, h, other))), (λ h. absurd (ground (arith, h, other)))))
      (schedule-AllKeep lock (fall_asleep k key) ne)

-- A call that is not a sleep on the lock.
pub Avoids : (lock : ℕ) (k l : Kernel) → Step k l → Type 0
Avoids lock _ _ (slept k key) = key ≢ lock
Avoids lock _ _ _ = Unit

Allocated-AllKeep :
    (lock i : ℕ) (k : Kernel) (us : List Thread)
    → Allocated k.threads 0 i us
    → AllKeep lock k.threads us
Allocated-AllKeep lock i k us a =
    subst (AllKeep lock k.threads) (sym a.table)
      (set-AllKeep lock k.threads a.place _ ((λ h. h), (λ h. absurd (ground (arith, h)))))

abbrev CloneKeeps : ℕ → Kernel → Result (ℕ × Kernel) → Type 0
CloneKeeps lock k (ok (i, l)) = AllKeep lock k.threads l.threads
CloneKeeps lock k panic = Unit

clone-AllKeep :
    (lock : ℕ) (k : Kernel) (m : Result (ℕ × List Thread))
    → Allocates k.threads 0 m
    → CloneKeeps lock k (
        ◌>>=◌ {A = ℕ × Kernel}
          (m >>= (λ r. ok (r.0, record k { threads = r.1 })))
          (λ r. ok (r.0, set_state r.1 r.0 runnable)))
clone-AllKeep lock k (ok (i, us)) a =
    AllKeep-trans lock k.threads us _ (Allocated-AllKeep lock i k us a)
      (set_state-AllKeep lock (record k { threads = us }) i runnable refl)
clone-AllKeep lock k panic a = tt

-- Behind a call that is not a sleep on the lock no thread has begun to sleep on it.
pub Step-AllKeep :
    (lock : ℕ) (k l : Kernel) (s : Step k l)
    → lock ≢ 0
    → Avoids lock k l s
    → AllKeep lock k.threads l.threads
unfolding Avoids wakeup exit clone alloc_thread
Step-AllKeep lock _ _ (yielded k) ne a = yield-AllKeep lock k ne
Step-AllKeep lock _ _ (left k) ne a =
    AllKeep-trans lock _ (set_state k k.current exited).threads _
      (set_state-AllKeep lock k k.current exited refl)
      (yield-AllKeep lock (set_state k k.current exited) ne)
Step-AllKeep lock _ _ (slept k key) ne a = sleepon-AllKeep lock key k ne a
Step-AllKeep lock _ _ (woke k key limit h) ne a = wake_from-AllKeep lock key limit 0 k.threads
Step-AllKeep lock _ _ (cloned k l i e) ne a =
    subst (CloneKeeps lock k) e
      (clone-AllKeep lock k (alloc_from 0 k.threads) (alloc_from-Allocates 0 k.threads))

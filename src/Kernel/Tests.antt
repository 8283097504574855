-- ===== src/Kernel/Tests.antt =====
-- The thread table at a concrete state: thread 0 runs, 1 is the idle thread, 2 and 4 sleep on the
-- lock 5, 3 can run.
use eggos.Base.{
  panic, [], ap, ℕ, zero, suc, ◌<◌, ◌≡◌, ◌≢◌, refl, true, false, ◌∷◌, none, replicate, arith, ok,
  ◌>>=◌,
}
use eggos.Kernel.Epoll.{Epoll, deliver, epoll_wait}
use eggos.Kernel.Epoll.Delivery.{HandsOut, epoll_wait-pending}
use eggos.Kernel.Thread.{
  Thread, State, sleeping, runnable, running, free_slot, Kernel, thread, nthreads, yield, sleepon,
  wakeup, schedule, to_scheduler, fall_asleep, pickup, pick_loop, pick_other, wake_from, clone,
  alloc_thread, alloc_from,
}
use eggos.Kernel.Pickup.{IsQuiet}
use eggos.Kernel.Fair.{Waits, picked, picked_soon}
use eggos.Kernel.Valid.{IsValid, rests, runs}
use eggos.Kernel.Steps.{stop, next, slept, woke, Steps-IsValid}

abbrev in_state : ℕ → State → Thread
in_state i s = record { id = i; state = s; sleep_key = 0; in_sleepon = false }

abbrev asleep : ℕ → ℕ → Thread
asleep i lock = record { id = i; state = sleeping; sleep_key = lock; in_sleepon = true }

abbrev five : Kernel
five = record {
  threads =
      in_state 0 running
      ∷ in_state 1 runnable
      ∷ asleep 2 5
      ∷ in_state 3 runnable
      ∷ asleep 4 5
      ∷ replicate 15 free_slot;
  current = 0;
  idx = 3;
  idle = 1;
  traptask = none;
  syscalltask = none;
}

-- After a yield the scheduler goes round the table past 4 to 0, since 2 and 4 sleep.
yield_test : (yield five).current ≡ 0
unfolding yield to_scheduler schedule pickup pick_other pick_loop
yield_test = refl

-- After sleepon it comes to 3, and after a wakeup of one thread and a second sleepon to 2.
sleepon_test : (sleepon (wakeup (sleepon five 9) 5 1) 9).current ≡ 2
unfolding sleepon fall_asleep schedule pickup pick_other pick_loop wakeup wake_from
sleepon_test = refl

clone_test : clone five >>= (λ r. ok r.0) ≡ ok 5
unfolding clone alloc_thread alloc_from
clone_test = refl

five-IsQuiet : (i : ℕ) → IsQuiet (record five { idx = i })
five-IsQuiet i = record { trap = refl; syscall = refl }

five-Waits : Waits 3 (λ n. five)
five-Waits = record { quiet = λ n. five-IsQuiet; wanted = λ n i. refl }

picked_soon_example : (n : ℕ) × (n < nthreads) × (picked (λ m. five) 7 n ≡ 3)
picked_soon_example = picked_soon 7 3 (λ m. five) (omega arith) five-Waits

free_slots : (n i : ℕ) → thread (replicate n free_slot) i ≡ free_slot
free_slots zero i = refl
free_slots (suc n) zero = refl
free_slots (suc n) (suc i) = free_slots n i

five_rest : (i : ℕ) → i ≢ 0 → rests (thread five.threads i) ≡ true
unfolding rests
five_rest zero ne = absurd (ne refl)
five_rest (suc zero) ne = refl
five_rest (suc (suc zero)) ne = refl
five_rest (suc (suc (suc zero))) ne = refl
five_rest (suc (suc (suc (suc zero)))) ne = refl
five_rest (suc (suc (suc (suc (suc i))))) ne = ap rests (free_slots 15 i)

five-IsValid : IsValid five
unfolding runs
five-IsValid = record {
  table = record {
    length_threads = refl;
    current_below = omega arith;
    idle_below = omega arith;
    trap_below = λ i e. cc;
    syscall_below = λ i e. cc;
  };
  current_runs = refl;
  others_rest = five_rest;
}

Steps-IsValid_example : IsValid (wakeup (sleepon five 9) 5 1)
Steps-IsValid_example =
    Steps-IsValid five (wakeup (sleepon five 9) 5 1)
      (next five (sleepon five 9) (wakeup (sleepon five 9) 5 1) (slept five 9) (
        next (sleepon five 9) (wakeup (sleepon five 9) 5 1) (wakeup (sleepon five 9) 5 1)
          (woke (sleepon five 9) 5 1 (omega arith)) (stop (wakeup (sleepon five 9) 5 1))))
      five-IsValid

abbrev two_events : Epoll
two_events = record {
  registered =
      record { events = 1; mask = 0x11; fd = 7; user_data = 70 }
      ∷ record { events = 4; mask = 0x14; fd = 9; user_data = 90 }
      ∷ [];
  note = 0;
}

epoll_wait-pending_example : HandsOut two_events 1 (epoll_wait two_events 1 5)
epoll_wait-pending_example = epoll_wait-pending two_events 1 5 (omega arith)

too_many_test : epoll_wait two_events 257 5 ≡ panic
unfolding epoll_wait
too_many_test = refl

first_event_test :
    (epoll_wait two_events 1 5 >>= λ r. ok r.0) ≡ ok (record { events = 1; user_data = 70 } ∷ [])
unfolding epoll_wait deliver
first_event_test = refl

-- ===== src/Kernel/Note/Lost.antt =====
-- kernel/lock.go: the calls on a note on which one thread sleeps, in any order.
use eggos.Base.{
  ℕ, zero, suc, ◌+◌, ◌*◌, ◌≡◌, ◌≢◌, refl, sym, ◌∙◌, subst, true, false, none, some, List, [], ◌∷◌,
  ◌⊎◌, inl, inr, ◌&&◌, ltb, ◌==◌, Result, ok, panic, arith, Bool-cases, get_or-set_ne, ℕ_discrete,
}
use eggos.Kernel.Thread.{Thread, free_slot, Kernel, thread, fall_asleep, sleepon, wake_from, wakeup}
use eggos.Kernel.Steps.{Step}
use eggos.Kernel.Clock.{Timespec, sleep_timeout, futex, second}
use eggos.Kernel.Note.{Note, note_sleep, note_wakeup, note_clear}
use eggos.Kernel.Note.Kept.{
  has_key, asleep_on, AllKeep, Avoids, schedule-AllKeep, wake_from-AllKeep, sleepon-AllKeep,
  Step-AllKeep,
}

abbrev pub threads_of : Note → List Thread
threads_of n = n.clock.kernel.threads

abbrev pub with_kernel : Note → Kernel → Note
with_kernel n k = record n { clock = record n.clock { kernel = k } }

-- A round of a call on the note, or another call; `user` alone sleeps on it without a deadline.
pub data NoteStep (user : ℕ) : Note → Note → Type 0 where
  waited :
      (n m : Note) (start now : ℕ)
      → n.clock.kernel.current ≡ user
      → note_sleep n none start now ≡ ok m
      → NoteStep user n m
  timed :
      (n m : Note) (ts : Timespec) (start now : ℕ)
      → note_sleep n (some ts) start now ≡ ok m
      → NoteStep user n m
  was_set : (n m : Note) (now : ℕ) → note_wakeup n now ≡ ok m → NoteStep user n m
  was_cleared : (n : Note) → NoteStep user n (note_clear n)
  moved :
      (n : Note) (l : Kernel) (s : Step n.clock.kernel l)
      → Avoids n.address n.clock.kernel l s
      → NoteStep user n (with_kernel n l)

pub data NoteSteps (user : ℕ) : Note → Note → Type 0 where
  done : (n : Note) → NoteSteps user n n
  more : (n m o : Note) → NoteStep user n m → NoteSteps user m o → NoteSteps user n o

-- Only the user has the key of the note, and it is not asleep on it while the note is set.
pub record NotLost (user : ℕ) (n : Note) : Type 0 where
  pub own : n.clock.sleeplock ≢ n.address
  pub nonzero : n.address ≢ 0
  pub only : (i : ℕ) → has_key n.address (thread (threads_of n) i) ≡ true → i ≡ user
  pub awake : (n.value ≡ 0) ⊎ (asleep_on n.address (thread (threads_of n) user) ≢ true)

-- A call behind which no thread has begun to sleep on the note.
with_kernel-NotLost :
    (user : ℕ) (n : Note) (l : Kernel)
    → NotLost user n
    → AllKeep n.address (threads_of n) l.threads
    → NotLost user (with_kernel n l)
with_kernel-NotLost user n l v a = record {
  own = v.own;
  nonzero = v.nonzero;
  only = λ i h. v.only i ((a i).0 h);
  awake = elim v.awake [ inl e ↦ inl e | inr h ↦ inr (λ s. h ((a user).1 s)) ];
}

-- The user falls asleep while the note is not set.
sleepon-NotLost :
    (user : ℕ) (n : Note)
    → NotLost user n
    → n.clock.kernel.current ≡ user
    → n.value ≡ 0
    → NotLost user (with_kernel n (sleepon n.clock.kernel n.address))
unfolding sleepon fall_asleep
sleepon-NotLost user n v own e = record {
  own = v.own;
  nonzero = v.nonzero;
  only = λ i h. elim (ℕ_discrete i user) [
    | yes same ↦ same
    | no other ↦
        let k = n.clock.kernel in
        let here = (schedule-AllKeep n.address (fall_asleep k n.address) v.nonzero i).0 h in
        let apart : k.current ≢ i = λ c. other (sym c ∙ own) in
        v.only i (
          subst (λ t. has_key n.address t ≡ true)
            (get_or-set_ne k.threads k.current i _ free_slot apart) here)
  ];
  awake = inl e;
}

-- wakeup with the limit 1 wakes the only thread that has the key.
wake_from-awake :
    (lock : ℕ) (ts : List Thread) (j : ℕ)
    → ((i : ℕ) → has_key lock (thread ts i) ≡ true → i ≡ j)
    → asleep_on lock (thread (wake_from lock 1 0 ts) j) ≢ true
unfolding wake_from
wake_from-awake lock [] j only = λ h. absurd (ground (arith, h))
wake_from-awake lock (t ∷ ts) zero only = λ h. absurd (ground (arith, h))
wake_from-awake lock (t ∷ ts) (suc j) only =
    let passed : has_key lock t ≡ false = elim (Bool-cases (has_key lock t)) [
      | inl h ↦ absurd (omega (arith, only 0 h))
      | inr h ↦ h
    ] in
    rw passed (wake_from-awake lock ts j (λ i h. omega (arith, only (suc i) h)))

abbrev Kept : ℕ → Result Note → Type 0
Kept user (ok m) = NotLost user m
Kept user panic = Unit

note_sleep-Kept :
    (user : ℕ) (n : Note) (start now : ℕ)
    → NotLost user n
    → n.clock.kernel.current ≡ user
    → Kept user (note_sleep n none start now)
unfolding note_sleep futex
note_sleep-Kept user n start now v own = elim (Bool-cases (n.value == 0)) [
  | inl h ↦ rw h (sleepon-NotLost user n v own (ground (arith, h)))
  | inr h ↦ rw h v
]

note_sleep-timed :
    (user : ℕ) (n : Note) (ts : Timespec) (start now : ℕ)
    → NotLost user n
    → Kept user (note_sleep n (some ts) start now)
unfolding note_sleep futex sleep_timeout
note_sleep-timed user n ts start now v =
    elim (Bool-cases (ltb now (start + (ts.tv_nsec + ts.tv_sec * second)) && n.value == 0)) [
      | inl h ↦ rw h (
          with_kernel-NotLost user n _ v
            (sleepon-AllKeep n.address n.clock.sleeplock n.clock.kernel v.nonzero v.own))
      | inr h ↦ rw h v
    ]

note_wakeup-Kept : (user : ℕ) (n : Note) (now : ℕ) → NotLost user n → Kept user (note_wakeup n now)
unfolding note_wakeup futex wakeup
note_wakeup-Kept user n now v = record {
  own = v.own;
  nonzero = v.nonzero;
  only = λ i h. v.only i ((wake_from-AllKeep n.address n.address 1 0 (threads_of n) i).0 h);
  awake = inr (wake_from-awake n.address (threads_of n) user v.only);
}

NoteStep-NotLost : (user : ℕ) (n m : Note) → NoteStep user n m → NotLost user n → NotLost user m
NoteStep-NotLost user _ _ (waited n m start now own e) v =
    subst (Kept user) e (note_sleep-Kept user n start now v own)
NoteStep-NotLost user _ _ (timed n m ts start now e) v =
    subst (Kept user) e (note_sleep-timed user n ts start now v)
NoteStep-NotLost user _ _ (was_set n m now e) v =
    subst (Kept user) e (note_wakeup-Kept user n now v)
NoteStep-NotLost user _ _ (was_cleared n) v = record {
  own = v.own;
  nonzero = v.nonzero;
  only = v.only;
  awake = inl refl;
}
NoteStep-NotLost user _ _ (moved n l s a) v =
    with_kernel-NotLost user n l v (Step-AllKeep n.address n.clock.kernel l s v.nonzero a)

-- However sleeps on a note by one thread, with or without a deadline, wakeups and clears of it by
-- any thread and all other calls into the scheduler follow one another: the thread is never asleep
-- on the note while the note is set, so a wakeup that comes before the sleep is not lost.
pub NoteSteps-NotLost :
    (user : ℕ) (n m : Note) → NoteSteps user n m → NotLost user n → NotLost user m
NoteSteps-NotLost user _ _ (done n) v = v
NoteSteps-NotLost user _ _ (more n m o s ss) v =
    NoteSteps-NotLost user m o ss (NoteStep-NotLost user n m s v)

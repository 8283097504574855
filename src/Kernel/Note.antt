-- ===== src/Kernel/Note.antt =====
-- kernel/lock.go: the note, a word on which a thread sleeps until another one sets it.
pub mod Kept
pub mod Lost
pub mod Tests
use eggos.Base.{ℕ, Option, none, some, Result, ok, panic, ◌>>=◌}
use eggos.Kernel.Clock.{Clock, Timespec, Pause, returned, sleeps, futex}

-- The clock with the thread table, the address of the note and its value.
pub record Note : Type 0 where
  pub clock : Clock
  pub address : ℕ
  pub value : ℕ

-- What a pause leaves of the thread table.
abbrev pub paused : Note → Pause → Note
paused n (returned k) = record n { clock = record n.clock { kernel = k } }
paused n (sleeps k) = record n { clock = record n.clock { kernel = k } }

-- A round of (*note).sleep, called at `start`.
unfoldable pub note_sleep : Note → Option Timespec → ℕ → ℕ → Result Note
unfolding futex
note_sleep n ts start now =
    futex n.clock n.address n.value 0 0 ts start now >>= λ p. ok (paused n p)

-- (*note).wakeup
unfoldable pub note_wakeup : Note → ℕ → Result Note
unfolding futex
note_wakeup n now =
    let set = record n { value = 1 } in
    futex set.clock set.address set.value 1 1 none now now >>= λ p. ok (paused set p)

-- (*note).clear
abbrev pub note_clear : Note → Note
note_clear n = record n { value = 0 }

-- ===== src/Kernel/Clock/Time.antt =====
-- kernel/timer.go: the clocks agree, time does not run backwards, and how long nanosleep waits.
use eggos.Base.{ℕ, ◌+◌, ◌*◌, ◌^◌, ◌≤◌, ◌<◌, ◌≡◌, ◌⊎◌, arith}
use eggos.Kernel.Clock.{
  second, pit_div, nanosecond, clocktime, Timespec, Clock, returned, nanosleep,
}

-- Before the tick counter leaves 31 bits, clocktime is nanosecond split into seconds and
-- nanoseconds, and its nanoseconds are less than a second.
pub clocktime-nanosecond :
    (counter reading : ℕ)
    → counter < 2 ^ 31
    → reading ≤ pit_div
    → ((clocktime counter reading).tv_sec * second + (clocktime counter reading).tv_nsec
        ≡ nanosecond counter reading)
      × ((clocktime counter reading).tv_nsec < second)
unfolding clocktime nanosecond
clocktime-nanosecond counter reading h p = (ground arith, ground arith)

-- A later tick, or a lower reading in the same tick, is a time that is not earlier.
pub nanosecond-le :
    (counter reading counter' reading' : ℕ)
    → reading ≤ pit_div
    → reading' ≤ pit_div
    → (counter < counter') ⊎ ((counter ≡ counter') × (reading' ≤ reading))
    → nanosecond counter reading ≤ nanosecond counter' reading'
unfolding nanosecond
nanosecond-le counter reading counter' reading' p q h = omega arith

-- A sleep of 2 ^ 31 nanoseconds or more, up to 2 ^ 32, such as three or four seconds, does not
-- sleep at all: the product overflows to a negative number and the deadline lies in the past.
pub nanosleep_overflow :
    (c : Clock) (tc : Timespec) (start now : ℕ)
    → 2 ^ 31 ≤ tc.tv_nsec + tc.tv_sec * second
    → tc.tv_nsec + tc.tv_sec * second < 2 ^ 32
    → start ≤ now
    → nanosleep c tc start now ≡ returned c.kernel
unfolding nanosleep
nanosleep_overflow c tc start now p q h = ground arith

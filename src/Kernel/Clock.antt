-- ===== src/Kernel/Clock.antt =====
-- kernel/timer.go: time, from the ticks of the timer and its counter, and sleeping for a time. An
-- int64 is its value, since time is not negative; `reading` is what the timer's counter holds, which
-- runs from 11931 down to 0 between two ticks.
pub mod Time
use eggos.Base.{
  ℕ, ◌+◌, ◌-◌, ◌*◌, ◌/◌, ◌%◌, ◌^◌, Bool, true, false, ltb, ◌==◌, if◌then◌else◌, ◌&&◌, Result, ok,
  panic, Option, none, some,
}
use eggos.Base.Words.{word, is_negative, int_div, int_rem}
use eggos.Kernel.Thread.{Kernel, yield, wakeup, sleepon}

abbrev pub second : ℕ
second = 1000000000

-- second / _HZ and second / _PIT_HZ
abbrev pub tick_ns : ℕ
tick_ns = 10000000

abbrev pub pit_ns : ℕ
pit_ns = 838

-- _PIT_HZ / _HZ
abbrev pub pit_div : ℕ
pit_div = 11931

-- With elapse, the negative part of pitCounter comes last.
unfoldable pub nanosecond : ℕ → ℕ → ℕ
nanosecond counter reading = counter * tick_ns + pit_div * pit_ns - reading * pit_ns

pub record Timespec : Type 0 where
  pub tv_sec : ℕ
  pub tv_nsec : ℕ

-- In the 32 bits of its fields.
unfoldable pub clocktime : ℕ → ℕ → Timespec
clocktime counter reading = record {
  tv_sec = int_div (counter % word) 100;
  tv_nsec =
      (int_rem (counter % word) 100 * tick_ns + pit_div * pit_ns + word - reading * pit_ns) % word;
}

-- The ticks since the start, with the thread table; `sleeplock` is the address of that variable.
pub record Clock : Type 0 where
  pub kernel : Kernel
  pub counter : ℕ
  pub sleeplock : ℕ

-- timerIntr, without its word to the interrupt controller; -1 is the greatest limit.
unfoldable pub timer_intr : Clock → Clock
timer_intr c = record c {
  kernel = yield (wakeup c.kernel c.sleeplock (word - 1));
  counter = c.counter + 1;
}

-- A wait returns, or sleeps until it is woken and then makes its test again.
pub data Pause : Type 0 where
  returned : Kernel → Pause
  sleeps : Kernel → Pause

-- tc.tv_nsec+tc.tv_sec*second, in the 32 bits of its operands.
abbrev pub nanosleep_for : Timespec → ℕ
nanosleep_for tc = (tc.tv_nsec + tc.tv_sec * second) % word

-- now < start + int64(d)
abbrev pub before_deadline : ℕ → ℕ → ℕ → Bool
before_deadline start now d =
    if is_negative d then ltb (now + (word - d)) start else ltb now (start + d)

-- A round of nanosleep that was called at `start`.
unfoldable pub nanosleep : Clock → Timespec → ℕ → ℕ → Pause
nanosleep c tc start now =
    if before_deadline start now (nanosleep_for tc)
    then sleeps (sleepon c.kernel c.sleeplock)
    else returned c.kernel

-- kernel/lock.go: a round of sleeptimeout, with the word at addr; its sum is an int64.
unfoldable pub sleep_timeout : Clock → ℕ → ℕ → Timespec → ℕ → ℕ → Pause
sleep_timeout c value val ts start now =
    if ltb now (start + (ts.tv_nsec + ts.tv_sec * second)) && value == val
    then sleeps (sleepon c.kernel c.sleeplock)
    else returned c.kernel

abbrev futex_wait : Clock → ℕ → ℕ → ℕ → Option Timespec → ℕ → ℕ → Pause
futex_wait c addr value val none start now =
    if value == val then sleeps (sleepon c.kernel addr) else returned c.kernel
futex_wait c addr value val (some ts) start now = sleep_timeout c value val ts start now

-- A round of futex, with the word at addr: _FUTEX_WAIT and _FUTEX_WAKE with and without the
-- private flag.
unfoldable pub futex : Clock → ℕ → ℕ → ℕ → ℕ → Option Timespec → ℕ → ℕ → Result Pause
unfolding sleep_timeout
futex c addr value op val ts start now =
    if op == 0
    then ok (futex_wait c addr value val ts start now)
    else if op == 128
    then ok (futex_wait c addr value val ts start now)
    else if op == 1
    then ok (returned (wakeup c.kernel addr val))
    else if op == 129
    then ok (returned (wakeup c.kernel addr val))
    else panic

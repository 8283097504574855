-- ===== src/Kernel/Signals.antt =====
-- kernel/signal.go: the actions of the signals, the signal stack and the signal mask of each
-- thread, and what Signal puts on that stack. The call of the handler is that of Kernel/Faults.
use eggos.Base.{
  ℕ, ◌+◌, ◌-◌, ◌%◌, Option, none, some, List, [], ◌∷◌, bit_and, bit_or, leb, ◌==◌, if◌then◌else◌,
  Result, ok, panic,
}
use eggos.Base.Words.{word}

abbrev pub nsig : ℕ
nsig = 128

-- sigactiont
pub record Action : Type 0 where
  pub sa_handler : ℕ
  pub sa_flags : ℕ
  pub sa_restorer : ℕ
  pub sa_mask : ℕ

-- stackt
pub record SigStack : Type 0 where
  pub ss_sp : ℕ
  pub ss_flags : ℕ
  pub ss_size : ℕ

-- sigset: two words.
abbrev pub SigSet : Type 0
SigSet = ℕ × ℕ

-- sigs, and the sigstack and sigset of each thread.
pub record Signals : Type 0 where
  pub actions : ℕ → Action
  pub stacks : ℕ → SigStack
  pub masks : ℕ → SigSet

abbrev pub update : {A : Type 0} → (ℕ → A) → ℕ → A → ℕ → A
update f i a j = if j == i then a else f j

-- &^ on a word
abbrev pub without : ℕ → ℕ → ℕ
without a b = bit_and a (word - 1 - b)

abbrev pub block : SigSet → SigSet → SigSet
block s new = (bit_or s.0 new.0, bit_or s.1 new.1)

abbrev pub unblock : SigSet → SigSet → SigSet
unblock s new = (without s.0 new.0, without s.1 new.1)

-- Each call gives what it stores in *old, and goes on without *new as the source does.
unfoldable pub sigaltstack : Signals → ℕ → Option SigStack → SigStack × Signals
sigaltstack s my none = (s.stacks my, s)
sigaltstack s my (some new) = (s.stacks my, record s { stacks = update s.stacks my new })

abbrev pub new_mask : ℕ → SigSet → SigSet → SigSet
new_mask how old new =
    if how == 2
    then new
    else if how == 1
    then unblock old new
    else if how == 0
    then block old new
    else old

unfoldable pub rtsigprocmask : Signals → ℕ → ℕ → Option SigSet → SigSet × Signals
rtsigprocmask s my how none = (s.masks my, s)
rtsigprocmask s my how (some new) =
    (s.masks my, record s { masks = update s.masks my (new_mask how (s.masks my) new) })

-- -1 and nothing stored where the signal is out of range.
abbrev set_action : Signals → ℕ → Option Action → Signals
set_action s sig none = s
set_action s sig (some new) = record s { actions = update s.actions sig new }

unfoldable pub rt_sigaction : Signals → ℕ → Option Action → (ℕ × Option Action) × Signals
rt_sigaction s sig new =
    if leb nsig sig
    then ((word - 1, none), s)
    else ((0, some (s.actions sig)), set_action s sig new)

-- A call of the handler with the stack pointer, and the words that lie there.
pub record Delivery : Type 0 where
  pub handler : ℕ
  pub sp : ℕ
  pub pushed : List ℕ

-- Signal, with the addresses of sinfo and sigctx.
unfoldable pub signal : Signals → ℕ → ℕ → ℕ → ℕ → Result (Option Delivery)
signal s my signo info ctx =
    if leb nsig signo
    then panic
    else if (s.actions signo).sa_handler == 0
    then ok none
    else if (s.stacks my).ss_sp == 0
    then panic
    else ok (
        some (record {
          handler = (s.actions signo).sa_handler;
          sp = ((s.stacks my).ss_sp + (s.stacks my).ss_size + word - 12) % word;
          pushed = signo ∷ info ∷ ctx ∷ [];
        }))

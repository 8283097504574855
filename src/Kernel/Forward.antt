-- ===== src/Kernel/Forward.antt =====
-- kernel/syscall.go: which system calls the kernel serves itself, and how it hands the others to the
-- syscall task, one at a time through pendingCall. A call is the address of its Request.
pub mod Handover
pub mod Routes
use eggos.Base.{
  ℕ, ◌-◌, ◌^◌, Bool, true, false, Option, none, some, List, [], ◌∷◌, ◌&&◌, ◌||◌, not, ◌==◌,
  if◌then◌else◌, Result, ok, panic, ◌>>=◌,
}
use eggos.Base.Words.{word}
use eggos.Isyscall.{einval, errno_ret, get_handler}
use eggos.Kernel.Thread.{Kernel, sleepon, wakeup}

-- kernelCalls, by the numbers of Linux on 386.
abbrev pub kernel_calls : List ℕ
kernel_calls =
    1 ∷ 243 ∷ 158 ∷ 162 ∷ 45 ∷ 91 ∷ 192 ∷ 219 ∷ 120 ∷ 224 ∷ 240 ∷ 174 ∷ 175 ∷ 186 ∷ 265 ∷ 252 ∷ 500
    ∷ 501 ∷ 329 ∷ 255 ∷ 256 ∷ []

unfoldable pub is_kernel_call : ℕ → List ℕ → Bool
is_kernel_call number [] = false
is_kernel_call number (n ∷ ns) = number == n || is_kernel_call number ns

abbrev pub is_syscalltask : Kernel → Option ℕ → Bool
is_syscalltask k none = false
is_syscalltask k (some i) = k.current == i

-- canForward, on the call's number and its first argument.
unfoldable pub can_forward : Kernel → ℕ → ℕ → Bool
can_forward k number bx =
    if is_syscalltask k k.syscalltask
    then false
    else if number == 4 && bx == 2
    then false
    else not (is_kernel_call number kernel_calls)

-- syscallIntr: serve the call, forward it, or make the caller come back as a blocked goroutine.
pub data Route : Type 0 where
  served forwarded blocked : Route

unfoldable pub syscall_intr : Kernel → Bool → Bool → ℕ → ℕ → Route
syscall_intr k bootstrap_done in_syscall number bx =
    if not (bootstrap_done && can_forward k number bx)
    then served
    else if in_syscall
    then forwarded
    else blocked

-- pendingCall, its address, and the threads.
pub record Forward : Type 0 where
  pub kernel : Kernel
  pub pending : ℕ
  pub lock : ℕ

pub data Attempt : Type 0 where
  waits submitted : Attempt

-- A round of forwardCall: the caller sleeps until the slot is free, or fills it, wakes all that
-- wait on it and sleeps on the lock of its call.
unfoldable pub forward_call : Forward → ℕ → ℕ → Attempt × Forward
forward_call f call call_lock =
    if not (f.pending == 0) then (waits, record f { kernel = sleepon f.kernel f.lock }) else (
      submitted,
      record f { pending = call; kernel = sleepon (wakeup f.kernel f.lock (word - 1)) call_lock },
    )

-- A round of fetchPendingCall: the syscall task sleeps, or empties the slot and wakes one thread.
unfoldable pub fetch_pending_call : Forward → Option ℕ × Forward
fetch_pending_call f =
    if f.pending == 0
    then (none, record f { kernel = sleepon f.kernel f.lock })
    else (some f.pending, record f { pending = 0; kernel = wakeup f.kernel f.lock 1 })

-- Request.Done
unfoldable pub done_call : Forward → ℕ → Forward
done_call f call_lock = record f { kernel = wakeup f.kernel call_lock 1 }

-- What handleForward does with a fetched call: its handler is started, or it is answered at once.
pub data Handling {ℓ} (H : Type ℓ) : Type ℓ where
  started : H → Handling H
  answered : ℕ → Forward → Handling H

abbrev handle_with {ℓ} : {H : Type ℓ} → Forward → ℕ → Option H → Handling H
handle_with f call_lock (some h) = started h
handle_with f call_lock none = answered (errno_ret einval) (done_call f call_lock)

unfoldable pub handle_forward {ℓ} :
    {H : Type ℓ} → (ℕ → Option H) → Forward → ℕ → ℕ → Result (Handling H)
handle_forward handlers f number call_lock =
    get_handler handlers number >>= λ h. ok (handle_with f call_lock h)

-- ===== src/Kernel/Forward/Routes.antt =====
-- kernel/syscall.go: where the calls go that no handler can have.
use eggos.Base.{ℕ, ◌≤◌, ◌≡◌, refl, true, false, Option, ◌==◌, le→ltb, panic, arith}
use eggos.Isyscall.{max_handlers, get_handler}
use eggos.Kernel.Forward.{
  kernel_calls, is_kernel_call, is_syscalltask, can_forward, forwarded, syscall_intr, Forward,
  handle_forward,
}

not-is_kernel_call :
    (number : ℕ) → max_handlers ≤ number → is_kernel_call number kernel_calls ≡ false
unfolding is_kernel_call
not-is_kernel_call number h = ground arith

is_no_write : (number : ℕ) → max_handlers ≤ number → (number == 4) ≡ false
is_no_write number h = ground arith

-- Once the system is up, a call with a number from 512 on, made by any thread but the syscall
-- task, is forwarded, and the syscall task panics on it: the table of handlers ends at 511.
pub unknown_call_panics {ℓ} :
    {H : Type ℓ} (handlers : ℕ → Option H) (f : Forward) (number bx call_lock : ℕ)
    → is_syscalltask f.kernel f.kernel.syscalltask ≡ false
    → max_handlers ≤ number
    → (syscall_intr f.kernel true true number bx ≡ forwarded)
      × (handle_forward handlers f number call_lock ≡ panic)
unfolding syscall_intr can_forward handle_forward get_handler
unknown_call_panics handlers f number bx call_lock other h =
    (rw (other, is_no_write number h, not-is_kernel_call number h) refl, rw (le→ltb _ _ h) refl)

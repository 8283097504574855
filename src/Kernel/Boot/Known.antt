-- ===== src/Kernel/Boot/Known.antt =====
-- kernel/syscall.go: canForward and doBootSyscall agree on which calls are the kernel's.
use eggos.Base.{
  ℕ, ◌≡◌, ◌≢◌, refl, sym, ap, ◌∙◌, Bool, true, false, List, [], ◌∷◌, ◌&&◌, ◌==◌, if◌then◌else◌,
  Bool-cases, inl, inr, arith,
}
use eggos.Kernel.Thread.{Kernel}
use eggos.Kernel.Forward.{
  kernel_calls, is_kernel_call, is_syscalltask, can_forward, served, forwarded, blocked,
  syscall_intr,
}
use eggos.Kernel.Boot.{Service, unknown, service}

abbrev pub is_known : Service → Bool
is_known unknown = false
is_known _ = true

unfoldable pub all_known : List ℕ → Bool
all_known [] = true
all_known (n ∷ ns) = is_known (service n) && all_known ns

kernel_calls-known : all_known kernel_calls ≡ true
unfolding all_known service
kernel_calls-known = refl

eq_of : (a b : ℕ) → (a == b) ≡ true → a ≡ b
eq_of a b h = ground arith

listed-known :
    (number : ℕ) (ns : List ℕ)
    → all_known ns ≡ true
    → is_kernel_call number ns ≡ true
    → is_known (service number) ≡ true
unfolding all_known is_kernel_call
listed-known number [] k h = cc
listed-known number (n ∷ ns) k h = elim (Bool-cases (number == n)) [
  | inl e ↦ ap (λ x. is_known (service x)) (eq_of number n e) ∙ ground arith
  | inr e ↦ listed-known number ns (ground arith) (ground arith)
]

forwardable-not_served :
    (k : Kernel) (in_syscall : Bool) (number bx : ℕ)
    → is_syscalltask k k.syscalltask ≡ false
    → (number == 4 && bx == 2) ≡ false
    → is_kernel_call number kernel_calls ≡ false
    → syscall_intr k true in_syscall number bx ≡ (if in_syscall then forwarded else blocked)
unfolding syscall_intr can_forward
forwardable-not_served k in_syscall number bx other p q = rw (other, p, q) refl

not_served : (in_syscall : Bool) → (if in_syscall then forwarded else blocked) ≢ served
not_served true e = cc
not_served false e = cc

write-known : (number bx : ℕ) → (number == 4 && bx == 2) ≡ true → is_known (service number) ≡ true
unfolding service
write-known number bx h = ap (λ n. is_known (service n)) (eq_of number 4 (ground arith))

-- Once the system is up, a call that the kernel keeps for itself, of any thread but the syscall
-- task, is one that the switch of doBootSyscall has a case for, and not the default with its signal.
pub kept_call_known :
    (k : Kernel) (in_syscall : Bool) (number bx : ℕ)
    → is_syscalltask k k.syscalltask ≡ false
    → syscall_intr k true in_syscall number bx ≡ served
    → is_known (service number) ≡ true
kept_call_known k in_syscall number bx other h = elim (Bool-cases (number == 4 && bx == 2)) [
  | inl w ↦ write-known number bx w
  | inr w ↦ elim (Bool-cases (is_kernel_call number kernel_calls)) [
    | inl e ↦ listed-known number kernel_calls kernel_calls-known e
    | inr e ↦
        absurd (
          not_served in_syscall (sym (forwardable-not_served k in_syscall number bx other w e) ∙ h))
  ]
]

-- ===== src/Kernel/Irq.antt =====
-- kernel/trap.go: device interrupts are noted in irqset and handled later by the trap task, which
-- waits for them with waitIRQ. The handlers are known by whether one is registered; what they do
-- is the drivers' part.
pub mod Dispatch
pub mod Wake
use eggos.Base.{
  ℕ, zero, suc, ◌+◌, ◌-◌, ◌%◌, ◌^◌, Bool, true, false, List, [], ◌∷◌, ◌++◌, ◌||◌, ◌&&◌, not,
  bit_and, bit_or, ltb, leb, ◌==◌, if◌then◌else◌,
}
use eggos.Kernel.Thread.{Kernel, yield, wakeup, fall_asleep, schedule}

abbrev pub irq_base : ℕ
irq_base = 0x20

abbrev pub setsize : ℕ
setsize = 32

-- irqset with the thread table; `irq_lock` is the address of irqset, `masked` the interrupt lines
-- that dotrap has disabled.
pub record Traps : Type 0 where
  pub kernel : Kernel
  pub irqset : ℕ
  pub irq_lock : ℕ
  pub masked : List ℕ

-- 1 << n of a uintptr
abbrev pub shift_one : ℕ → ℕ
shift_one n = if ltb n setsize then 2 ^ n else 0

-- irqset |= 1 << (no - IRQ_BASE)
abbrev pub note_irq : ℕ → ℕ → ℕ
note_irq set number = bit_or set (shift_one (number - irq_base))

unfoldable pub wake_irq : Traps → ℕ → Traps
wake_irq t number = record t {
  kernel = yield (wakeup t.kernel t.irq_lock 1);
  irqset = note_irq t.irqset number;
}

-- What dotrap does with a trap: Signal, note it for the trap task, or call its handler at once.
pub data Trap : Type 0 where
  fault : Traps → Trap
  noted : Traps → Trap
  called : Traps → Trap

abbrev mask_line : Traps → ℕ → Traps
mask_line t number = record t {
  masked = if number == 43 then (43 - irq_base) ∷ t.masked else t.masked;
}

unfoldable pub dotrap : (ℕ → Bool) → Traps → ℕ → Trap
dotrap registered t trapno =
    if not (registered trapno)
    then fault t
    else if ltb 32 trapno && not (trapno == 0x80)
    then noted (wake_irq (mask_line t trapno) trapno)
    else called t

-- waitIRQ: the set, or a sleep on it; when the sleep ends the set is taken as it then is.
pub data Waiting : Type 0 where
  taken : ℕ → Traps → Waiting
  asleep : Traps → Waiting

unfoldable pub take_irqs : Traps → ℕ × Traps
take_irqs t = (t.irqset, record t { irqset = 0 })

unfoldable pub wait_irq : Traps → Waiting
unfolding take_irqs
wait_irq t =
    if t.irqset == 0
    then asleep (record t { kernel = schedule (fall_asleep t.kernel t.irq_lock) })
    else let r = take_irqs t in taken r.0 r.1

-- One round of the loop of traploop: the handler of an interrupt is called, or it has none.
pub data Served : Type 0 where
  handled : ℕ → Served
  missing : ℕ → Served

abbrev serve : (ℕ → Bool) → ℕ → Served
serve registered number = if registered number then handled number else missing number

-- The loop over the bits of trapset, `left` of them, from bit i on.
unfoldable pub dispatch_from : (ℕ → Bool) → ℕ → ℕ → ℕ → List Served
dispatch_from registered trapset zero i = []
dispatch_from registered trapset (suc left) i =
    let rest = dispatch_from registered trapset left (suc i) in
    if bit_and trapset (2 ^ i) == 0 then rest else serve registered (irq_base + i) ∷ rest

unfoldable pub dispatch : (ℕ → Bool) → ℕ → List Served
unfolding dispatch_from
dispatch registered trapset = dispatch_from registered trapset setsize 0

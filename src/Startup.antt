-- ===== src/Startup.antt =====
-- kernel/preinit.go and kmain/main.go: the order in which handlers are registered and lines are
-- opened, from the set-up of the interrupt controllers to Init of pci/pci.go.
pub mod Open
pub mod Tests
use eggos.Base.{ℕ, ◌+◌, List, Result}
use eggos.Pic
use eggos.Pic.{enable_irq}
use eggos.Pci.{Space}
use eggos.Pci.Drivers
use eggos.Pci.Drivers.{Driver, Drivers, register}

-- The numbers of the handlers of the kernel.
pub record Handlers : Type 0 where
  pub page_fault : ℕ
  pub ignore : ℕ
  pub syscall : ℕ
  pub timer : ℕ
  pub com1 : ℕ
  pub kbd : ℕ

abbrev pub irq_base : ℕ
irq_base = 0x20

module _ {World : Type 0} where
  -- trap.Register and pic.EnableIRQ, as timer_init and Init of uart/uart.go and kbd/kbd.go do.
  unfoldable pub start_line : ℕ → ℕ → Drivers World → Drivers World
  start_line line handler s =
      let t = register s (irq_base + line) handler in record t { pic = enable_irq t.pic line }

  unfoldable pub trap_init : Handlers → Drivers World → Drivers World
  trap_init h s = register (register (register s 14 h.page_fault) 39 h.ignore) 47 h.ignore

  unfoldable pub syscal_init : Handlers → Drivers World → Drivers World
  syscal_init h s = register s 0x80 h.syscall

  abbrev pub pic_init : Drivers World → Drivers World
  pic_init s = record s { pic = Pic.init }

  -- The part of timer_init behind the writes to the timer.
  abbrev pub timer_init : Handlers → Drivers World → Drivers World
  timer_init h s = start_line 0 h.timer s

  abbrev pub uart_init : Handlers → Drivers World → Drivers World
  uart_init h s = start_line 4 h.com1 s

  abbrev pub kbd_init : Handlers → Drivers World → Drivers World
  kbd_init h s = start_line 1 h.kbd s

  unfoldable pub preinit : Handlers → Drivers World → Drivers World
  unfolding trap_init syscal_init start_line
  preinit h s = timer_init h (pic_init (syscal_init h (trap_init h s)))

  -- main up to the start of the network: what stands between does not touch the lines.
  unfoldable pub main :
      Handlers → Space → List (Driver World) → Drivers World → Result (Drivers World)
  unfolding start_line
  main h space drivers s = Drivers.init space drivers (kbd_init h (uart_init h s))

-- ===== src/Startup/Open.antt =====
-- kernel/preinit.go and kmain/main.go: the open lines and their handlers.
use eggos.Base.{ℕ, ◌⊎◌, ◌+◌, ◌<◌, ◌%◌, ◌≡◌, ◌≢◌, true, false, Option, none, some, List, [], ◌∷◌}
use eggos.Pic
use eggos.Pic.{Pic}
use eggos.Pic.Masks.{is_open}
use eggos.Pci.Scan.{Device}
use eggos.Pci.Drivers
use eggos.Pci.Drivers.{Drivers}
use eggos.Pci.Drivers.Served.{has_handler}
use eggos.Startup.{irq_base}

-- The number of the interrupt is that of the line.
abbrev pub Lined : Device → Type 0
Lined d = d.irqno ≡ (irq_base + d.irq_line) % 256

abbrev pub AllLined : List Device → Type 0
AllLined [] = Unit
AllLined (d ∷ ds) = Lined d × AllLined ds

abbrev FoundLined : Option Device → Type 0
FoundLined none = Unit
FoundLined (some d) = Lined d

abbrev masked : Pic
masked = record { mask1 = 255; mask2 = 255; ended = [] }

module _ {World : Type 0} where
  -- Each open line but that of the second controller has a handler for its interrupt.
  abbrev pub NoStray : Drivers World → Type 0
  NoStray s =
      (line : ℕ)
      → line < 16
      → line ≢ 2
      → is_open s.pic line ≡ true
      → has_handler (s.handlers (irq_base + line)) ≡ true

  -- The line is closed, or its interrupt has a handler.
  abbrev pub IsGuarded : Drivers World → ℕ → Type 0
  IsGuarded s line =
      (is_open s.pic line ≡ false) ⊎ (has_handler (s.handlers (irq_base + line)) ≡ true)

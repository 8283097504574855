-- ===== src/Pci/Drivers/Served/Tests.antt =====
-- One card, with line 11, as the first device, and two drivers of which the second is for it.
use eggos.Base.{ℕ, suc, ok, none, List, [], ◌∷◌, ◌==◌, if◌then◌else◌}
use eggos.Pic.{init}
use eggos.Pci.{Address, Space}
use eggos.Pci.Scan.{Identity}
use eggos.Pci.Drivers
use eggos.Pci.Drivers.{Driver}

abbrev card : Address
card = record { bus = 0; device = 0; function = 0 }

abbrev space : Space
space p = if p == 0x80000000 then 0x100e8086 else if p == 0x8000003c then 11 else 0xffffffff

abbrev counts : List Identity → Driver ℕ
counts ids = record { idents = ids; start = λ n d. ok (suc n) }

abbrev e1000 : List Identity
e1000 = record { vendor = 0x8086; device = 0x100e } ∷ []

abbrev none_started : Drivers.Drivers ℕ
none_started = record { world = 0; pic = init; handlers = λ n. none }

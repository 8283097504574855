-- ===== src/Pci/Tests.antt =====
-- A network card at bus 0, device 3 with a region of 128 KiB in its first base address register.
use eggos.Base.{
  ℕ, ◌*◌, ◌/◌, ◌^◌, ◌≡◌, refl, List, [], ◌∷◌, length, some, ◌==◌, if◌then◌else◌, panic, arith,
}
use eggos.Pci.{Address, Space, config_addr, read_register}
use eggos.Pci.Scan.{Identity, Device, device_at, scan_functions, scan_devices, find_ident, find_dev}
use eggos.Pci.Fields.{IsAddress}

abbrev card : Address
card = record { bus = 0; device = 3; function = 0 }

card-IsAddress : IsAddress card
card-IsAddress = record { bus = omega arith; device = omega arith; function = omega arith }

abbrev card_reg : ℕ
card_reg = 16

abbrev space : Space
space p = if p == 0x80001810 then 0xfebc0000 else 0

abbrev latch : ℕ → ℕ → ℕ
latch p v = if p == 0x80001810 then v / 2 ^ 17 * 2 ^ 17 else 0

unaligned_test : read_register space card 17 ≡ panic
unfolding read_register
unaligned_test = refl

-- Only the card answers on bus 0: the other registers read as all ones.
abbrev one_card : Space
one_card p = if p == 0x80001800 then 0x100e8086 else 0xffffffff

scan_test : length (scan_devices one_card 0 32 0) ≡ 1
unfolding scan_devices scan_functions config_addr
scan_test = refl

abbrev found : List Device
found = device_at one_card card ∷ []

abbrev idents : List Identity
idents = record { vendor = 1; device = 2 } ∷ record { vendor = 0x8086; device = 0x100e } ∷ []

find_dev_test : find_dev idents found ≡ some (device_at one_card card)
unfolding find_dev find_ident config_addr
find_dev_test = refl

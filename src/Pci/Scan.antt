-- ===== src/Pci/Scan.antt =====
-- pci/pci.go: the scan of all functions of all buses, and the device that a driver gets.
pub mod Found
use eggos.Base.{
  ℕ, zero, suc, ◌+◌, ◌/◌, ◌%◌, ◌^◌, Bool, true, false, Option, none, some, List, [], ◌∷◌, ◌++◌,
  ◌==◌, ◌&&◌, bit_and, bit_or, if◌then◌else◌, Result, ok, ◌>>=◌,
}
use eggos.Pci.{Address, Space, config_addr, read_register, write_register}

pub record Identity : Type 0 where
  pub vendor : ℕ
  pub device : ℕ

pub record Device : Type 0 where
  pub ident : Identity
  pub addr : Address
  pub class : ℕ
  pub sub_class : ℕ
  pub irq_line : ℕ
  pub irqno : ℕ

-- ReadVendorID, ReadDeviceID, ReadPCIClass and ReadIRQLine: their registers are aligned.
abbrev pub vendor_id : Space → Address → ℕ
vendor_id s a = s (config_addr a 0) % 2 ^ 16

abbrev pub device_id : Space → Address → ℕ
device_id s a = s (config_addr a 0) / 2 ^ 16 % 2 ^ 16

abbrev pub pci_class : Space → Address → ℕ
pci_class s a = s (config_addr a 8) / 2 ^ 16 % 2 ^ 16

abbrev pub read_irq_line : Space → Address → ℕ
read_irq_line s a = bit_and (s (config_addr a 0x3c)) 0xff

-- EnableBusMaster
unfoldable pub enable_bus_master : (ℕ → ℕ → ℕ) → Space → Address → Result Space
enable_bus_master latch s a = read_register s a 4 >>= λ v. write_register latch s a 4 (bit_or v 4)

abbrev pub device_at : Space → Address → Device
device_at s a = record {
  ident = record { vendor = vendor_id s a; device = device_id s a };
  addr = a;
  class = bit_and (pci_class s a / 256) 0xff;
  sub_class = bit_and (pci_class s a) 0xff;
  irq_line = read_irq_line s a;
  irqno = (0x20 + read_irq_line s a) % 256;
}

-- The loops of Scan, with what is left of each.
unfoldable pub scan_functions : Space → ℕ → ℕ → ℕ → ℕ → List Device
scan_functions s bus dev zero f = []
scan_functions s bus dev (suc left) f =
    let rest = scan_functions s bus dev left (suc f) in
    let a : Address = record { bus = bus; device = dev; function = f } in
    if vendor_id s a == 0xffff then rest else device_at s a ∷ rest

unfoldable pub scan_devices : Space → ℕ → ℕ → ℕ → List Device
scan_devices s bus zero dev = []
scan_devices s bus (suc left) dev =
    scan_functions s bus dev 8 0 ++ scan_devices s bus left (suc dev)

unfoldable pub scan_buses : Space → ℕ → ℕ → List Device
scan_buses s zero bus = []
scan_buses s (suc left) bus = scan_devices s bus 32 0 ++ scan_buses s left (suc bus)

unfoldable pub scan : Space → List Device
scan s = scan_buses s 256 0

-- findDev
abbrev pub same_ident : Identity → Identity → Bool
same_ident a b = a.vendor == b.vendor && a.device == b.device

unfoldable pub find_ident : Identity → List Device → Option Device
find_ident i [] = none
find_ident i (d ∷ ds) = let rest = find_ident i ds in if same_ident d.ident i then some d else rest

abbrev or_next : Option Device → Option Device → Option Device
or_next none r = r
or_next (some d) r = some d

unfoldable pub find_dev : List Identity → List Device → Option Device
find_dev [] ds = none
find_dev (i ∷ is) ds = or_next (find_ident i ds) (find_dev is ds)

-- ===== src/Startup/Tests.antt =====
-- The start-up with one card, of line 11.
use eggos.Base.{ℕ, ok, ◌>>=◌, suc, ◌≡◌, refl, true, none, [], ◌∷◌, ◌==◌, if◌then◌else◌}
use eggos.Base.BitSets.{has_bit}
use eggos.Pic
use eggos.Pic.Masks.{is_open}
use eggos.Pci.{Space, config_addr}
use eggos.Pci.Scan.{scan, scan_buses, scan_devices, scan_functions, find_dev, find_ident}
use eggos.Pci.Drivers
use eggos.Pci.Drivers.{Driver, Drivers, start_all}
use eggos.Startup.{Handlers, start_line, preinit, main}

abbrev handlers : Handlers
handlers = record {
  page_fault = 100;
  ignore = 101;
  syscall = 102;
  timer = 103;
  com1 = 104;
  kbd = 105;
}

abbrev one_card : Space
one_card p = if p == 0x80000000 then 0x100e8086 else if p == 0x8000003c then 11 else 0xffffffff

abbrev for_card : Driver ℕ
for_card = record {
  idents = record { vendor = 0x8086; device = 0x100e } ∷ [];
  start = λ n d. ok (suc n);
}

abbrev powered_on : Drivers.Drivers ℕ
powered_on = record {
  world = 0;
  pic = record { mask1 = 0; mask2 = 0; ended = [] };
  handlers = λ n. none;
}

card_line_open :
    (main handlers one_card (for_card ∷ []) (preinit handlers powered_on) >>= λ t.
    ok (is_open t.pic 11))
    ≡ ok true
unfolding main preinit Drivers.init Pic.init start_line find_dev find_ident scan scan_buses
    scan_devices scan_functions config_addr has_bit
card_line_open = refl

-- ===== src/Pci.antt =====
-- pci/addr.go: the configuration registers of a PCI function. The configuration space is a function
-- of the address that the source sends to the port; `latch` is the hardware: what a register
-- reads as after a value is written to it.
pub mod Fields
pub mod Size
pub mod Scan
pub mod Drivers
pub mod Tests
use eggos.Base.{
  ℕ, ◌+◌, ◌-◌, ◌*◌, ◌/◌, ◌%◌, ◌^◌, Bool, true, false, not, bit_and, bit_or, ltb, ◌==◌,
  if◌then◌else◌, Result, ok, panic, ◌>>=◌,
}
use eggos.Base.Words.{word}

pub record Address : Type 0 where
  pub bus : ℕ
  pub device : ℕ
  pub function : ℕ

unfoldable pub config_addr : Address → ℕ → ℕ
config_addr a reg =
    bit_or
      (bit_or (bit_or (bit_or (2 ^ 31) (a.bus * 2 ^ 16)) (a.device * 2 ^ 11)) (a.function * 2 ^ 8))
      reg

abbrev pub Space : Type 0
Space = ℕ → ℕ

unfoldable pub read_register : Space → Address → ℕ → Result ℕ
read_register s a reg = if not (bit_and reg 3 == 0) then panic else ok (s (config_addr a reg))

-- What ReadBAR returns: addr, len, prefetch and isMem.
pub record Bar : Type 0 where
  pub addr : ℕ
  pub len : ℕ
  pub prefetch : Bool
  pub is_mem : Bool

abbrev pub no_memory : ℕ → Bar
no_memory addr = record { addr = addr; len = 0; prefetch = false; is_mem = false }

module _ (latch : ℕ → ℕ → ℕ) where
  abbrev pub put : Space → ℕ → ℕ → Space
  put s p v q = if q == p then latch p v else s q

  unfoldable pub write_register : Space → Address → ℕ → ℕ → Result Space
  write_register s a reg v =
      if not (bit_and reg 3 == 0) then panic else ok (put s (config_addr a reg) v)

  -- The case of a 32-bit memory address: the size is read back behind a write of ones.
  unfoldable pub measure : Space → Address → ℕ → ℕ → Result (Bar × Space)
  measure s a reg addr0 = do
    s₁ ← write_register s a reg 0xffffffff
    v ← read_register s₁ a reg
    s₂ ← write_register s₁ a reg addr0
    ok (
      record {
        addr = addr0 / 16 * 16;
        len = (word - 1 - v / 16 * 16 + 1) % word;
        prefetch = not (bit_and addr0 8 == 0);
        is_mem = true;
      },
      s₂,
    )

  abbrev pub bar_of : Space → Address → ℕ → ℕ → Result (Bar × Space)
  bar_of s a reg addr0 =
      if not (bit_and addr0 1 == 0)
      then ok (no_memory (addr0 / 4 * 4), s)
      else if addr0 / 2 % 4 == 0
      then measure s a reg addr0
      else if addr0 / 2 % 4 == 3
      then ok (
        record {
          addr = addr0 / 16 * 16;
          len = 0;
          prefetch = not (bit_and addr0 8 == 0);
          is_mem = true;
        },
        s,
      )
      else ok (no_memory 0, s)

  unfoldable pub read_bar : Space → Address → ℕ → Result (Bar × Space)
  read_bar s a bar =
      if ltb 5 bar then panic else read_register s a (16 + bar * 4) >>= bar_of s a (16 + bar * 4)

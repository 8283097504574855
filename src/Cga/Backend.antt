-- ===== src/Cga/Backend.antt =====
-- cga/backend.go: the Backend interface, and what the driver relies on. A position is a Go int,
-- as its 32-bit pattern; an index outside the 25 rows of 80 cells panics.
use eggos.Base.{ℕ, ◌≡◌, ◌<◌, Result, ok}

-- 25 * 80
abbrev pub cell_count : ℕ
cell_count = 2000

pub record Backend : Type 1 where
  pub Display : Type 0
  pub get_pos : Display → ℕ
  pub set_pos : Display → ℕ → Result Display
  pub write_pos : Display → ℕ → ℕ → Result Display
  pub write_byte : Display → ℕ → Result Display

-- A display whose cursor is on the screen stays so, and no call panics.
pub record IsSound (b : Backend) : Type 1 where
  pub IsGood : b.Display → Type 0
  pub pos_in : (s : b.Display) → IsGood s → b.get_pos s < cell_count
  pub set_pos_ok :
      (s : b.Display) (n : ℕ)
      → IsGood s
      → n < cell_count
      → (t : b.Display) × (b.set_pos s n ≡ ok t) × IsGood t × (b.get_pos t ≡ n)
  pub write_pos_ok :
      (s : b.Display) (i ch : ℕ)
      → IsGood s
      → i < cell_count
      → (t : b.Display) × (b.write_pos s i ch ≡ ok t) × IsGood t × (b.get_pos t ≡ b.get_pos s)
  pub write_byte_ok :
      (s : b.Display) (ch : ℕ) → IsGood s → (t : b.Display) × (b.write_byte s ch ≡ ok t) × IsGood t

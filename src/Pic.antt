-- ===== src/Pic.antt =====
-- pic/pic.go: the masks of the two interrupt controllers, and the words that end an interrupt.
pub mod Masks
pub mod Only
use eggos.Base.{
  ℕ, ◌-◌, ◌%◌, ◌^◌, Bool, true, false, List, [], ◌∷◌, bit_and, bit_or, leb, ltb, if◌then◌else◌,
}

-- The mask registers, and the controllers that were told the end of an interrupt, the last one
-- first: the second controller is true.
pub record Pic : Type 0 where
  pub mask1 : ℕ
  pub mask2 : ℕ
  pub ended : List Bool

-- byte(...) of a mask with the bit of `line` cleared or set, where 1<<line is a uint16.
abbrev bit_of : ℕ → ℕ
bit_of line = if ltb line 16 then 2 ^ line else 0

unfoldable pub enable_irq : Pic → ℕ → Pic
enable_irq p line =
    if leb 8 line
    then record p { mask2 = bit_and p.mask2 (255 - bit_of (line - 8) % 256) }
    else record p { mask1 = bit_and p.mask1 (255 - bit_of line % 256) }

unfoldable pub disable_irq : Pic → ℕ → Pic
disable_irq p line =
    if leb 8 line
    then record p { mask2 = bit_or p.mask2 (bit_of (line - 8)) % 256 }
    else record p { mask1 = bit_or p.mask1 (bit_of line) % 256 }

unfoldable pub eoi : Pic → ℕ → Pic
eoi p irq = record p { ended = if leb 0x28 irq then false ∷ true ∷ p.ended else false ∷ p.ended }

-- Init leaves all lines masked but the one of the second controller.
unfoldable pub init : Pic
unfolding enable_irq
init = enable_irq (record { mask1 = 255; mask2 = 255; ended = [] }) 2

-- ===== src/Uart.antt =====
-- uart/uart.go: the serial port. The bytes that have arrived are a list; Uart/Output is the way out.
pub mod Input
pub mod Output
use eggos.Base.{
  ℕ, zero, suc, ◌-◌, ◌^◌, Bool, true, false, Option, none, some, List, [], ◌∷◌, ◌++◌, length,
  if◌then◌else◌,
}
use eggos.Pic.{Pic, eoi}

abbrev pub irq_com1 : ℕ
irq_com1 = 0x24

-- The port, whether inputCallback is set and the bytes that it was called with, and the interrupt
-- controllers.
pub record Uart : Type 0 where
  pub arrived : List ℕ
  pub has_callback : Bool
  pub delivered : List ℕ
  pub pic : Pic

-- ReadByte, with none for -1.
abbrev pub read_byte : List ℕ → Option ℕ
read_byte [] = none
read_byte (b ∷ bs) = some b

-- OnInput
abbrev pub on_input : Uart → Uart
on_input u = record u { has_callback = true }

-- The loop of intr hands over one byte after the other until none is left.
unfoldable pub drain : List ℕ → List ℕ → List ℕ
drain [] delivered = delivered
drain (b ∷ bs) delivered = drain bs (delivered ++ (b ∷ []))

unfoldable pub uart_intr : Uart → Uart
unfolding drain
uart_intr u =
    if u.has_callback
    then record u {
      arrived = [];
      delivered = drain u.arrived u.delivered;
      pic = eoi u.pic irq_com1;
    }
    else u

-- ===== src/Uart/Input.antt =====
-- uart/uart.go: what an interrupt of the serial port hands over, and what it leaves behind.
use eggos.Base.{ℕ, ◌≡◌, refl, sym, ◌∙◌, true, false, List, [], ◌∷◌, ◌++◌, append_assoc, append-nil}
use eggos.Pic.{eoi}
use eggos.Uart.{irq_com1, Uart, drain, uart_intr}

drain-append : (bs delivered : List ℕ) → drain bs delivered ≡ delivered ++ bs
unfolding drain
drain-append [] delivered = sym (append-nil delivered)
drain-append (b ∷ bs) delivered =
    drain-append bs (delivered ++ (b ∷ [])) ∙ append_assoc delivered (b ∷ []) bs

-- With a callback, the interrupt hands over all bytes that have arrived, in their order, leaves
-- none, and ends at the interrupt controller.
pub uart_intr-delivered :
    (u : Uart)
    → u.has_callback ≡ true
    → ((uart_intr u).delivered ≡ u.delivered ++ u.arrived)
      × ((uart_intr u).arrived ≡ [])
      × ((uart_intr u).pic ≡ eoi u.pic irq_com1)
unfolding uart_intr
uart_intr-delivered u h = rw h (drain-append u.arrived u.delivered, refl, refl)

-- Before a callback is set, the interrupt leaves the byte in the port and is never ended.
pub uart_intr_unset : (u : Uart) → u.has_callback ≡ false → uart_intr u ≡ u
unfolding uart_intr
uart_intr_unset u h = rw h refl

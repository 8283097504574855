-- ===== src/Uart/Output/Sent/Tests.antt =====
-- uart/uart.go: two bytes, and a character of two bytes.
use eggos.Base.{ℕ, ◌≡◌, refl, some, List, [], ◌∷◌, ltb, if◌then◌else◌, arith}
use eggos.Uart.Output.{
  SerialPort, uart_write, uart_write_string, write_all, uart_write_byte, wait_free, starts,
}
use eggos.Uart.Output.Sent.{WasSent, free_reads, uart_write-WasSent}

-- The width of ASCII and of characters of two bytes.
abbrev width : List ℕ → ℕ
width [] = 1
width (c ∷ cs) = if ltb c 0x80 then 1 else 2

abbrev port : SerialPort
port = record { status = 0x60 ∷ 0 ∷ 0x60 ∷ []; sent = [] }

-- Of é, 0xc3 0xa9, the second byte is left out, and two are reported.
drops_bytes :
    uart_write_string width port (0xc3 ∷ 0xa9 ∷ [])
    ≡ (2, some (record { status = 0 ∷ 0x60 ∷ []; sent = 0xc3 ∷ [] }))
unfolding write_all uart_write_byte wait_free starts
drops_bytes = refl

uart_write-WasSent_example : WasSent [] (104 ∷ 105 ∷ []) (uart_write port (104 ∷ 105 ∷ [])).1
unfolding free_reads
uart_write-WasSent_example = uart_write-WasSent port (104 ∷ 105 ∷ []) (omega arith)

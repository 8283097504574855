-- ===== src/Uart/Output.antt =====
-- uart/uart.go: sending. The bytes that the line status register reads as are a list, in the order
-- of the reads; a send without an end is `none`.
pub mod Sent
use eggos.Base.{
  ℕ, zero, suc, ◌-◌, Option, none, some, List, [], ◌∷◌, ◌++◌, length, bit_and, ◌==◌, if◌then◌else◌,
  ◌>>=◌,
}

pub record SerialPort : Type 0 where
  pub status : List ℕ
  pub sent : List ℕ

-- The loop of WriteByte: the reads behind the first one with bit 5.
unfoldable pub wait_free : List ℕ → Option (List ℕ)
wait_free [] = none
wait_free (r ∷ rs) = let rest = wait_free rs in if bit_and r 0x20 == 0 then rest else some rs

abbrev pub send : List ℕ → ℕ → Option (List ℕ) → Option SerialPort
send sent ch none = none
send sent ch (some rs) = some (record { status = rs; sent = sent ++ (ch ∷ []) })

unfoldable pub uart_write_byte : SerialPort → ℕ → Option SerialPort
unfolding wait_free
uart_write_byte o ch = send o.sent ch (wait_free o.status)

unfoldable pub write_all : Option SerialPort → List ℕ → Option SerialPort
unfolding uart_write_byte
write_all none s = none
write_all (some o) [] = some o
write_all (some o) (c ∷ cs) = write_all (uart_write_byte o c) cs

-- Write
abbrev pub uart_write : SerialPort → List ℕ → ℕ × Option SerialPort
uart_write o s = (length s, write_all (some o) s)

-- The bytes s[i] of `for i := range s`, which takes the places where a code point begins. What its
-- first code point takes of a text is `width`; `skip` bytes are left of the last one.
unfoldable pub starts : (List ℕ → ℕ) → ℕ → List ℕ → List ℕ
starts width skip [] = []
starts width zero (c ∷ cs) = c ∷ starts width (width (c ∷ cs) - 1) cs
starts width (suc skip) (c ∷ cs) = starts width skip cs

-- WriteString
abbrev pub uart_write_string : (List ℕ → ℕ) → SerialPort → List ℕ → ℕ × Option SerialPort
uart_write_string width o s = (length s, write_all (some o) (starts width 0 s))

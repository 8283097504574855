-- ===== src/Uart/Output/Sent.antt =====
-- uart/uart.go: what is sent.
pub mod Tests
use eggos.Base.{
  ℕ, zero, suc, ◌+◌, ◌-◌, ◌<◌, ◌≤◌, ◌≡◌, refl, sym, ap, ◌∙◌, subst, Bool, true, false, Option, none,
  some, List, [], ◌∷◌, ◌++◌, length, append_assoc, append-nil, bit_and, ◌==◌, ◌&&◌, ltb,
  if◌then◌else◌, arith, Bool-cases, inl, inr,
}
use eggos.Uart.Output.{
  SerialPort, wait_free, send, uart_write_byte, write_all, uart_write, starts, uart_write_string,
}

-- The reads of the line status with a free port.
unfoldable pub free_reads : List ℕ → ℕ
free_reads [] = 0
free_reads (r ∷ rs) = let rest = free_reads rs in if bit_and r 0x20 == 0 then rest else suc rest

unfoldable pub is_ascii : List ℕ → Bool
is_ascii [] = true
is_ascii (c ∷ cs) = ltb c 0x80 && is_ascii cs

-- All of the bytes are sent behind those before.
pub WasSent : List ℕ → List ℕ → Option SerialPort → Type 0
WasSent before s none = ⊥
WasSent before s (some o) = o.sent ≡ before ++ s

abbrev Waited : ℕ → Option (List ℕ) → Type 0
Waited n none = ⊥
Waited n (some rs) = n ≤ free_reads rs

wait_free-Waited : (n : ℕ) (rs : List ℕ) → suc n ≤ free_reads rs → Waited n (wait_free rs)
unfolding wait_free free_reads
wait_free-Waited n [] = λ h. absurd (omega (arith, h))
wait_free-Waited n (r ∷ rs) = elim (Bool-cases (bit_and r 0x20 == 0)) [
  | inl e ↦ rw e (wait_free-Waited n rs)
  | inr e ↦ rw e (λ h. omega (arith, h))
]

WasSent-cons :
    (c : ℕ) (cs before : List ℕ) (o : Option SerialPort)
    → WasSent (before ++ (c ∷ [])) cs o
    → WasSent before (c ∷ cs) o
unfolding WasSent
WasSent-cons c cs before none h = h
WasSent-cons c cs before (some o) h = h ∙ append_assoc before (c ∷ []) cs

-- Behind a byte, by what holds of the others.
send-WasSent :
    (c : ℕ) (cs before : List ℕ) (r : Option (List ℕ))
    → ((sent status : List ℕ)
        → length cs ≤ free_reads status
        → WasSent sent cs (write_all (some (record { status = status; sent = sent })) cs))
    → Waited (length cs) r
    → WasSent before (c ∷ cs) (write_all (send before c r) cs)
send-WasSent c cs before none rest h = absurd h
send-WasSent c cs before (some rs) rest h =
    WasSent-cons c cs before _ (rest (before ++ (c ∷ [])) rs h)

write_all-WasSent :
    (s sent status : List ℕ)
    → length s ≤ free_reads status
    → WasSent sent s (write_all (some (record { status = status; sent = sent })) s)
unfolding write_all uart_write_byte WasSent
write_all-WasSent [] sent status h = sym (append-nil sent)
write_all-WasSent (c ∷ cs) sent status h =
    send-WasSent c cs sent (wait_free status) (λ b t. write_all-WasSent cs b t)
      (wait_free-Waited (length cs) status h)

-- Of an ASCII text each byte begins a code point.
starts_ascii :
    (width : List ℕ → ℕ) (s : List ℕ)
    → ((c : ℕ) (cs : List ℕ) → c < 0x80 → width (c ∷ cs) ≡ 1)
    → is_ascii s ≡ true
    → starts width 0 s ≡ s
unfolding starts is_ascii
starts_ascii width [] one h = refl
starts_ascii width (c ∷ cs) one h =
    let first : width (c ∷ cs) ≡ 1 = one c cs (ground (arith, h)) in
    rw first (ap (λ x. c ∷ x) (starts_ascii width cs one (ground (arith, h))))

-- When the port is read as free at least once for each byte, Write comes to an end and has sent all
-- bytes in their order, however often it is read as busy.
pub uart_write-WasSent :
    (o : SerialPort) (s : List ℕ)
    → length s ≤ free_reads o.status
    → WasSent o.sent s (uart_write o s).1
uart_write-WasSent o s h = write_all-WasSent s o.sent o.status h

-- WriteString does the same with an ASCII text, where a character below 0x80 takes one byte.
pub write_string_ascii :
    (width : List ℕ → ℕ) (o : SerialPort) (s : List ℕ)
    → ((c : ℕ) (cs : List ℕ) → c < 0x80 → width (c ∷ cs) ≡ 1)
    → is_ascii s ≡ true
    → uart_write_string width o s ≡ uart_write o s
write_string_ascii width o s one h =
    ap (λ x. (length s, write_all (some o) x)) (starts_ascii width s one h)

-- ===== src/E1000/Mac.antt =====
-- e1000/e1000.go: the address of the card, from its EEPROM or its registers. The hardware is a
-- parameter: what each poll of the EEPROM register reads, what it reads at last for each of the
-- EEPROM's words, and what the two address registers hold.
use eggos.Base.{
  ℕ, zero, suc, ◌+◌, ◌*◌, ◌/◌, ◌%◌, ◌^◌, ◌<◌, ◌≡◌, Bool, true, false, not, List, [], ◌∷◌, bit_and,
  ◌==◌, if◌then◌else◌, arith, Bool-cases, inl, inr,
}

pub record Hardware : Type 0 where
  pub poll : ℕ → ℕ
  pub eeprom : ℕ → ℕ
  pub rxaddr_low : ℕ
  pub rxaddr_high : ℕ

-- The loop of detecteeprom from its i-th round on.
unfoldable pub detect_from : (ℕ → ℕ) → ℕ → ℕ → Bool
detect_from poll zero i = false
detect_from poll (suc left) i =
    let rest = detect_from poll left (suc i) in
    if not (bit_and (poll i) 0x10 == 0) then true else rest

unfoldable pub detect_eeprom : Hardware → Bool
unfolding detect_from
detect_eeprom h = detect_from h.poll 1000 0

-- readeeprom, when its poll has ended.
abbrev pub read_eeprom : Hardware → ℕ → ℕ
read_eeprom h addr = h.eeprom addr / 2 ^ 16 % 2 ^ 16

abbrev pub byte_of : ℕ → ℕ → ℕ
byte_of i w = w / 256 ^ i % 256

unfoldable pub read_mac : Hardware → List ℕ
unfolding detect_eeprom
read_mac h =
    if not (detect_eeprom h)
    then byte_of 0 h.rxaddr_low
      ∷ byte_of 1 h.rxaddr_low
      ∷ byte_of 2 h.rxaddr_low
      ∷ byte_of 3 h.rxaddr_low
      ∷ byte_of 0 h.rxaddr_high
      ∷ byte_of 1 h.rxaddr_high
      ∷ []
    else byte_of 0 (read_eeprom h 0)
      ∷ byte_of 1 (read_eeprom h 0)
      ∷ byte_of 0 (read_eeprom h 1)
      ∷ byte_of 1 (read_eeprom h 1)
      ∷ byte_of 0 (read_eeprom h 2)
      ∷ byte_of 1 (read_eeprom h 2)
      ∷ []

-- The bytes as one number, the first one lowest.
unfoldable pub number_of : List ℕ → ℕ
number_of [] = 0
number_of (b ∷ bs) = b + number_of bs * 256

from_registers :
    (low high : ℕ)
    → low < 2 ^ 32
    → number_of (
        byte_of 0 low
        ∷ byte_of 1 low
        ∷ byte_of 2 low
        ∷ byte_of 3 low
        ∷ byte_of 0 high
        ∷ byte_of 1 high
        ∷ [])
      ≡ low + high % 2 ^ 16 * 2 ^ 32
unfolding number_of
from_registers low high p = omega (arith, p)

from_words :
    (a b c : ℕ)
    → a < 2 ^ 16
    → b < 2 ^ 16
    → c < 2 ^ 16
    → number_of
        (byte_of 0 a ∷ byte_of 1 a ∷ byte_of 0 b ∷ byte_of 1 b ∷ byte_of 0 c ∷ byte_of 1 c ∷ [])
      ≡ a + b * 2 ^ 16 + c * 2 ^ 32
unfolding number_of
from_words a b c p q r = omega (arith, p, q, r)

-- The address is the six bytes of the first three words of the EEPROM, if the card has one, or of
-- the address registers, each from its low byte on.
pub number_of-read_mac :
    (h : Hardware)
    → h.rxaddr_low < 2 ^ 32
    → number_of (read_mac h) ≡ (
        if detect_eeprom h
        then read_eeprom h 0 + read_eeprom h 1 * 2 ^ 16 + read_eeprom h 2 * 2 ^ 32
        else h.rxaddr_low + h.rxaddr_high % 2 ^ 16 * 2 ^ 32)
unfolding read_mac
number_of-read_mac h p = elim (Bool-cases (detect_eeprom h)) [
  | inl e ↦ rw e (
      from_words (read_eeprom h 0) (read_eeprom h 1) (read_eeprom h 2) (omega arith) (omega arith)
        (omega arith))
  | inr e ↦ rw e (from_registers h.rxaddr_low h.rxaddr_high p)
]

-- ===== src/Cga/Driver.antt =====
-- cga/cga.go: the byte stream of the text console, over any Backend. The state is the package's
-- parser and the display behind getbackend(). A numeric parameter is a Go int, as its pattern.
pub mod Laws
pub mod Commands
pub mod OffScreen
use eggos.Base.{
  ℕ, zero, suc, ◌+◌, ◌-◌, ◌*◌, ◌/◌, ◌%◌, ◌^◌, min, Bool, true, false, List, [], ◌∷◌, ◌&&◌, ◌||◌,
  leb, ◌==◌, if◌then◌else◌, Result, ok, panic, ◌>>=◌,
}
use eggos.Base.Words.{word, add32, sub32, int_div}
use eggos.Cga.Ansi.{Parser, Outcome, more, normal_char, invalid_char, csi_done, step, reset}
use eggos.Cga.Backend.{Backend}

abbrev pub is_digit : ℕ → Bool
is_digit c = leb b'0' c && leb c b'9'

-- strconv.Atoi, at a parameter of the parser, which holds neither a sign nor a space: 0 where it
-- is not a number, and the greatest int where it is too large.
pub atoi_from : ℕ → List ℕ → ℕ
atoi_from acc [] = min acc (2 ^ 31 - 1)
atoi_from acc (c ∷ s) =
    let rest = atoi_from (acc * 10 + (c - b'0')) s in if is_digit c then rest else 0

unfoldable pub atoi : List ℕ → ℕ
unfolding atoi_from
atoi s = atoi_from 0 s

-- The parameter of a sequence, or `d` where it has none.
abbrev pub first_param : List (List ℕ) → ℕ → ℕ
first_param [] d = d
first_param (p ∷ ps) d = atoi p

pub record Driver (b : Backend) : Type 0 where
  pub parser : Parser
  pub display : b.Display

module _ (b : Backend) where
  open b use {Display, get_pos, set_pos, write_pos}

  unfoldable pub set_cursor_column : Display → ℕ → Result Display
  set_cursor_column d n = set_pos d (sub32 (add32 (int_div (get_pos d) 80 * 80 % word) n) 1)

  -- for i := pos; i < end; i++, with end - pos rounds left.
  unfoldable pub erase_from : ℕ → ℕ → Display → Result Display
  erase_from zero i d = ok d
  erase_from (suc n) i d = write_pos d i 0x20 >>= erase_from n (add32 i 1)

  abbrev pub line_end : ℕ → ℕ
  line_end pos = (int_div pos 80 + 1) * 80 % word

  unfoldable pub erase_line : Display → ℕ → Result Display
  erase_line d method =
      if method == 0
      then erase_from (sub32 (line_end (get_pos d)) (get_pos d)) (get_pos d) d
      else panic

  unfoldable pub write_csi : Display → ℕ → List (List ℕ) → Result Display
  write_csi d action params =
      if action == b'G'
      then set_cursor_column d (first_param params 1)
      else if action == b'K'
      then erase_line d (first_param params 0)
      else panic

  -- The loop of a tab.
  unfoldable pub write_spaces : ℕ → Display → Result Display
  write_spaces zero d = ok d
  write_spaces (suc n) d = b.write_byte d 0x20 >>= write_spaces n

  -- The case errNormalChar of WriteByte.
  unfoldable pub write_normal : Display → ℕ → Result Display
  write_normal d ch =
      if ch == 0x0a || (ch == 0x0d || ch == 0x08)
      then b.write_byte d ch
      else if ch == 0x09
      then write_spaces 4 d
      else if leb 32 ch && leb ch 127
      then b.write_byte d ch
      else b.write_byte d b'?'

  abbrev pub with_display : Parser → Result Display → Result (Driver b)
  with_display p r = r >>= λ d. ok (record { parser = p; display = d })

  -- WriteByte, on what the parser makes of the byte.
  unfoldable pub act : Display → ℕ → Parser × Outcome → Result (Driver b)
  act d ch (p, normal_char) = with_display p (write_normal d ch)
  act d ch (p, csi_done) = with_display (reset p) (write_csi d p.action p.params)
  act d ch (p, invalid_char) = ok (record { parser = reset p; display = d })
  act d ch (p, more) = ok (record { parser = p; display = d })

  unfoldable pub write_byte : Driver b → ℕ → Result (Driver b)
  write_byte t ch = act t.display ch (step t.parser ch)

  unfoldable pub write_string : Driver b → List ℕ → Result (Driver b)
  write_string t [] = ok t
  write_string t (ch ∷ s) = write_byte t ch >>= λ t'. write_string t' s

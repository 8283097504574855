-- ===== src/Kbd.antt =====
-- kbd/kbd.go: scan codes of the keyboard controller to bytes. The state is the package's `shift`
-- flags and keyPressed; what the controller holds is a list of scan codes.
pub mod Tables
pub mod Safe
pub mod Keys
pub mod Arrows
pub mod Tests
use eggos.Base.{
  ℕ, zero, suc, ◌+◌, ◌-◌, ◌%◌, Bool, true, false, Option, none, some, List, [], ◌∷◌, ◌++◌, ◌&&◌,
  not, bit_and, bit_or, bit_xor, ltb, leb, ◌==◌, if◌then◌else◌, Result, ok, panic, ◌>>=◌,
}
use Tables.{shiftcode, togglecode, normalmap, shiftmap, ctlmap}

-- The flags of `shift`.
abbrev pub shift_flag : ℕ
shift_flag = 1

abbrev pub ctl_flag : ℕ
ctl_flag = 2

abbrev pub alt_flag : ℕ
alt_flag = 4

abbrev pub capslock : ℕ
capslock = 8

abbrev pub e0esc : ℕ
e0esc = 64

pub record Kbd : Type 0 where
  pub shift : ℕ
  pub pressed : ℕ → Bool

-- charcode[i], of four maps.
unfoldable pub charcode : ℕ → ℕ → ℕ
charcode i d = if i == 0 then normalmap d else if i == 1 then shiftmap d else ctlmap d

-- charcode[shift&(CTL|SHIFT)][data]
unfoldable pub char_of : ℕ → ℕ → ℕ
char_of shift d = charcode (bit_and shift 3) d

-- shift &= ^mask, of a byte.
abbrev pub clear_bits : ℕ → ℕ → ℕ
clear_bits shift mask = bit_and shift (bit_xor 0xff mask)

-- keyPressed[c] = v; the array has 255 entries.
unfoldable pub set_pressed : Kbd → ℕ → Bool → Result Kbd
set_pressed k c v =
    if ltb c 255 then ok (record k { pressed = λ i. if i == c then v else k.pressed i }) else panic

-- The letter case that CAPSLOCK turns round.
unfoldable pub swap_case : ℕ → ℕ
swap_case c =
    if leb b'a' c && leb c b'z' then c - 32 else if leb b'A' c && leb c b'Z' then c + 32 else c

-- The flags after the key `d` is released.
abbrev pub shift_up : ℕ → ℕ → ℕ
shift_up shift d = clear_bits shift (bit_or (shiftcode d) e0esc)

-- The case "Key released", with the scan code `d` that it looks up.
unfoldable pub release_key : Kbd → ℕ → Result (Kbd × ℕ)
release_key k d =
    set_pressed (record k { shift = shift_up k.shift d }) (char_of (shift_up k.shift d) d) false
    >>= λ k'. ok (k', 0)

unfoldable pub release : Kbd → ℕ → Result (Kbd × ℕ)
release k code = release_key k (if bit_and k.shift e0esc == 0 then bit_and code 0x7f else code)

-- The flags after the key `d` is pressed.
abbrev pub shift_down : ℕ → ℕ → ℕ
shift_down shift d = bit_xor (bit_or shift (shiftcode d)) (togglecode d)

-- The byte of the key `d` under the flags `shift`.
unfoldable pub typed : ℕ → ℕ → ℕ
typed shift d = if bit_and shift capslock == 0 then char_of shift d else swap_case (char_of shift d)

-- What follows the switch: `d` is the scan code and `shift` the flags that the switch left.
unfoldable pub press : Kbd → ℕ → ℕ → Result (Kbd × ℕ)
press k shift d =
    set_pressed (record k { shift = shift_down shift d }) (typed (shift_down shift d) d) true
    >>= λ k'. ok (k', typed (shift_down shift d) d)

-- ReadByte on a scan code, after the status port said that there is one.
unfoldable pub read_code : Kbd → ℕ → Result (Kbd × ℕ)
read_code k code =
    if code == 0xe0
    then ok (record k { shift = bit_or k.shift e0esc }, 0)
    else if not (bit_and code 0x80 == 0)
    then release k code
    else if not (bit_and k.shift e0esc == 0)
    then press k (clear_bits k.shift e0esc) (bit_or code 0x80)
    else press k k.shift code

-- csiEscape: the escape sequence of an arrow key, or "".
unfoldable pub csi_escape : ℕ → List ℕ
csi_escape ch =
    if ch == 0xe2
    then 0x1b ∷ b'[' ∷ b'A' ∷ []
    else if ch == 0xe3
    then 0x1b ∷ b'[' ∷ b'B' ∷ []
    else if ch == 0xe4
    then 0x1b ∷ b'[' ∷ b'D' ∷ []
    else if ch == 0xe5
    then 0x1b ∷ b'[' ∷ b'C' ∷ []
    else []

-- The bytes that intr hands to the callback for a code.
abbrev pub emitted : ℕ → List ℕ
emitted ch = elim (csi_escape ch) [ [] ↦ ch ∷ [] | b ∷ bs ↦ b ∷ bs ]

-- What is left after the interrupt: the keyboard, the bytes handed on, and the codes not read.
pub record Handled : Type 0 where
  pub kbd : Kbd
  pub bytes : List ℕ
  pub unread : List ℕ

-- What a code's byte adds to the bytes that the codes behind it give.
abbrev pub hand_on : ℕ → Handled → Handled
hand_on ch h = record h { bytes = emitted ch ++ h.bytes }

-- The bytes that the loop of intr makes of the codes: it stops at -1 (no code) and at 0 (a code that
-- gives no byte).
unfoldable pub read_codes : Kbd → List ℕ → Result Handled
read_codes k [] = ok (record { kbd = k; bytes = []; unread = [] })
read_codes k (code ∷ codes) = read_code k code >>= λ (k', ch).
    let rest : Result Handled = read_codes k' codes >>= λ h. ok (hand_on ch h) in
    if ch == 0 then ok (record { kbd = k'; bytes = []; unread = codes }) else rest

-- What an interrupt leaves: the keyboard, what the callback works on, the codes not read, and whether
-- the controller was told its end.
pub record Interrupted (World : Type 0) : Type 0 where
  pub kbd : Kbd
  pub world : World
  pub unread : List ℕ
  pub ended : Bool

module _ {World : Type 0} where
  -- The callback on one byte after the other.
  unfoldable pub call_each : (World → ℕ → Result World) → World → List ℕ → Result World
  call_each callback w [] = ok w
  call_each callback w (b ∷ bs) = callback w b >>= λ v. call_each callback v bs

  -- The loop of intr with its callback.
  unfoldable pub intr_loop :
      (World → ℕ → Result World) → Kbd → World → List ℕ → Result (Interrupted World)
  unfolding call_each
  intr_loop callback k w [] = ok (record { kbd = k; world = w; unread = []; ended = true })
  intr_loop callback k w (code ∷ codes) = read_code k code >>= λ (k', ch).
      let rest : Result (Interrupted World) =
        call_each callback w (emitted ch) >>= λ v. intr_loop callback k' v codes in
      if ch == 0 then ok (record { kbd = k'; world = w; unread = codes; ended = true }) else rest

  -- intr: without a callback it returns at once, and the interrupt is not ended.
  unfoldable pub intr :
      Option (World → ℕ → Result World) → Kbd → World → List ℕ → Result (Interrupted World)
  unfolding intr_loop
  intr none k w codes = ok (record { kbd = k; world = w; unread = codes; ended = false })
  intr (some callback) k w codes = intr_loop callback k w codes

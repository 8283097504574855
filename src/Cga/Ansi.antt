-- ===== src/Cga/Ansi.antt =====
-- cga/ansi.go: the byte-wise parser of CSI sequences. A byte is a number below 256; a Go byte
-- slice and a Go string are lists of bytes.
pub mod Parse
pub mod Tests
use eggos.Base.{ℕ, ◌≡◌, Bool, true, false, List, [], ◌∷◌, ◌++◌, ◌&&◌, leb, ◌==◌, if◌then◌else◌}

-- stateBegin, stateESC, stateLeft, stateParam and stateDone.
pub data State : Type 0 where
  begin esc left param done : State

-- What `step` returns: nil, errNormalChar, errInvalidChar or errCSIDone.
pub data Outcome : Type 0 where
  more normal_char invalid_char csi_done : Outcome

pub record Parser : Type 0 where
  pub state : State
  pub action : ℕ
  pub parambuf : List ℕ
  pub params : List (List ℕ)

abbrev pub esc_byte : ℕ
esc_byte = 0x1b

-- The bytes that `step` takes for a parameter and for a final byte.
abbrev pub is_param : ℕ → Bool
is_param ch = leb 0x30 ch && leb ch 0x3f

abbrev pub is_final : ℕ → Bool
is_final ch = leb 0x40 ch && leb ch 0x7f

-- Puts a byte in front of the first piece.
abbrev pub push_first : ℕ → List (List ℕ) → List (List ℕ)
push_first b [] = (b ∷ []) ∷ []
push_first b (p ∷ ps) = (b ∷ p) ∷ ps

-- bytes.Split(s, []byte(";")) of the Go library: always at least one piece.
unfoldable pub split : List ℕ → List (List ℕ)
split [] = [] ∷ []
split (b ∷ s) = let rest = split s in if b == b';' then [] ∷ rest else push_first b rest

unfoldable pub decode_param : Parser → Parser
decode_param p = elim p.parambuf [
  | [] ↦ p
  | b ∷ s ↦ record p { params = p.params ++ split (b ∷ s) }
]

-- The end of `step`, after its switch.
unfoldable pub finish : Parser → Parser × Outcome
finish p = elim p.state [ done ↦ (decode_param p, csi_done) | _ ↦ (p, more) ]

abbrev pub take_param : Parser → ℕ → Parser
take_param p ch = record p { state = param; parambuf = p.parambuf ++ (ch ∷ []) }

abbrev pub take_final : Parser → ℕ → Parser
take_final p ch = record p { state = done; action = ch }

-- The case that stateLeft and stateParam share.
unfoldable pub step_param : Parser → ℕ → Parser × Outcome
unfolding finish
step_param p ch =
    if is_param ch
    then finish (take_param p ch)
    else if is_final ch
    then finish (take_final p ch)
    else (p, invalid_char)

abbrev step_in : State → Parser → ℕ → Parser × Outcome
step_in begin p ch = if ch == esc_byte then finish (record p { state = esc }) else (p, normal_char)
step_in esc p ch = if ch == b'[' then finish (record p { state = left }) else (p, invalid_char)
step_in left p ch = step_param p ch
step_in param p ch = step_param p ch
step_in done p ch = finish p

unfoldable pub step : Parser → ℕ → Parser × Outcome
unfolding step_param finish
step p ch = step_in p.state p ch

unfoldable pub reset : Parser → Parser
reset p = record { state = begin; action = 0; parambuf = []; params = [] }

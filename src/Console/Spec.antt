-- ===== src/Console/Spec.antt =====
-- What the console promises: bytes that a reader may have, oldest first, and behind them the line
-- that is still being typed, 128 bytes together at most.
use eggos.Base.{
  ℕ, zero, suc, ◌+◌, Bool, true, false, Option, none, some, List, [], ◌∷◌, ◌++◌, ◌||◌, leb, ◌==◌,
  if◌then◌else◌, length,
}
use eggos.Console.{con_buflen, cooked, is_erase}

pub record Discipline : Type 0 where
  pub ready : List ℕ
  pub pending : List ℕ

abbrev pub size : Discipline → ℕ
size d = length d.ready + length d.pending

abbrev pub drop_last : List ℕ → List ℕ
drop_last [] = []
drop_last (x ∷ []) = []
drop_last (x ∷ y ∷ xs) = x ∷ drop_last (y ∷ xs)

abbrev pub is_empty : List ℕ → Bool
is_empty [] = true
is_empty (x ∷ xs) = false

-- Makes everything typed so far readable.
abbrev pub flush : Discipline → Discipline
flush d = record { ready = d.ready ++ d.pending; pending = [] }

abbrev pub type_byte : Discipline → ℕ → Discipline
type_byte d ch = record d { pending = d.pending ++ (ch ∷ []) }

-- A line is committed by its new line, or when the buffer is full.
abbrev pub end_line : Discipline → ℕ → Discipline
end_line d ch = if ch == 0x0a || size d == con_buflen then flush d else d

unfoldable pub input : Bool → Discipline → ℕ → Discipline
input true d ch = if leb con_buflen (size d) then d else flush (type_byte d ch)
input false d ch =
    if is_erase ch
    then record d { pending = drop_last d.pending }
    else if leb con_buflen (size d)
    then d
    else end_line (type_byte d (cooked ch)) (cooked ch)

-- What goes back to the terminal.
unfoldable pub echo : Bool → Discipline → ℕ → Option ℕ
echo true d ch = none
echo false d ch =
    if is_erase ch
    then (if is_empty d.pending then none else some 0x7f)
    else if leb con_buflen (size d)
    then none
    else some (cooked ch)

-- A read with room for n bytes: what it takes from the readable ones, what it leaves, and the room
-- that is left if it has to wait for more.
unfoldable pub read : Bool → ℕ → List ℕ → List ℕ × List ℕ × Option ℕ
read raw zero q = ([], q, none)
read raw (suc n) [] = ([], [], some (suc n))
read raw (suc n) (ch ∷ q) =
    let (got, left, wait) = read raw n q in
    if ch == 0x0a || raw then (ch ∷ [], q, none) else (ch ∷ got, left, wait)

-- ===== src/Shell/Run/Jobs.antt =====
-- When the shell goes on, and what it remembers.
use eggos.Base.{
  ℕ, ◌≡◌, Bool, true, false, Option, List, [], ◌∷◌, ◌++◌, ◌&&◌, not, Result, ok, panic,
}
use eggos.Isyscall.{Error, Attempt, done, failed}
use eggos.Paths.{same_path}
use eggos.Shell.Run.{
  Programs, Event, remembered, ran, started, not_found, reported, exited, trim_space, go_word,
}

-- The lines that went into the history.
unfoldable pub history : List Event → List (List ℕ)
history [] = []
history (remembered line ∷ events) = line ∷ history events
history (ran c ∷ events) = history events
history (started c ∷ events) = history events
history (not_found c ∷ events) = history events
history (reported e ∷ events) = history events
history (exited ∷ events) = history events

-- The words of a command, without the word that puts it into the background.
abbrev pub is_command : List (List ℕ) → Bool
is_command [] = false
is_command (w ∷ []) = not (same_path w go_word)
is_command (w ∷ x ∷ words) = true

abbrev pub parsed_command : Attempt (List (List ℕ)) → Bool
parsed_command (failed e) = true
parsed_command (done words) = is_command words

-- A trimmed line that the shell can do something with, and what it remembers of it.
abbrev pub can_do : Programs → List ℕ → Bool
can_do sys [] = true
can_do sys (b ∷ bs) = parsed_command (sys.parse (b ∷ bs))

abbrev pub typed : List ℕ → List (List ℕ)
typed [] = []
typed (b ∷ bs) = (b ∷ bs) ∷ []

unfoldable pub can_do_all : Programs → List (List ℕ) → Bool
can_do_all sys [] = true
can_do_all sys (line ∷ lines) = can_do sys (trim_space line) && can_do_all sys lines

unfoldable pub typed_lines : List (List ℕ) → List (List ℕ)
typed_lines [] = []
typed_lines (line ∷ lines) = typed (trim_space line) ++ typed_lines lines

-- A run that panics exactly when it may not go on, and remembers the given lines when it does.
pub Remembers : {W : Type 0} → Bool → List (List ℕ) → Result (List Event × W) → Type 0
Remembers may lines panic = may ≡ false
Remembers may lines (ok r) = (may ≡ true) × (history r.0 ≡ lines)

-- So does a round, and its program has read no line.
Serves : {W : Type 0} → Bool → List (List ℕ) → Result (List Event × (ℕ × W)) → Type 0
Serves may lines panic = may ≡ false
Serves may lines (ok r) = (may ≡ true) × ((history r.0 ≡ lines) × (r.1.0 ≡ 0))

-- A run that returns and has read no line.
abbrev pub IsCalm : {W : Type 0} → Result (Option Error × (ℕ × W)) → Type 0
IsCalm panic = ⊥
IsCalm (ok (e, (taken, w))) = taken ≡ 0

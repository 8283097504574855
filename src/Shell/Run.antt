-- ===== src/Shell/Run.antt =====
-- app/sh/sh.go and the table of app/app.go: the shell. The lines that the user types are a list, which
-- ends where the input does; the words of a line (shellwords.Parse) and the programs are
-- parameters: a program may panic, and one in the foreground may take lines that are typed. A program
-- in the background is started, and what it does then is its own.
pub mod Jobs
pub mod Tests
use eggos.Base.{
  ℕ, zero, suc, Bool, true, false, Option, none, some, List, [], ◌∷◌, ◌++◌, ◌==◌, ◌&&◌, ◌||◌, leb,
  if◌then◌else◌, Result, ok, panic, ◌>>=◌,
}
use eggos.Isyscall.{Error, Attempt, done, failed}
use eggos.Paths.{same_path}

-- What the shell calls: the parser of a line, whether a program is registered, and a run of it with
-- its arguments, which tells its error and how many of the next typed lines it has read.
pub record Programs : Type 1 where
  pub World : Type 0
  pub parse : List ℕ → Attempt (List (List ℕ))
  pub registered : List ℕ → Bool
  pub run : World → List (List ℕ) → Result (Option Error × (ℕ × World))

-- What the shell does, one after the other.
pub data Event : Type 0 where
  remembered : List ℕ → Event
  ran started not_found : List (List ℕ) → Event
  reported : Error → Event
  exited : Event

-- strings.TrimSpace on ASCII.
abbrev pub is_space : ℕ → Bool
is_space b = b == 32 || (leb 9 b && leb b 13)

unfoldable pub trim_front : List ℕ → List ℕ
trim_front [] = []
trim_front (b ∷ bs) = let rest = trim_front bs in if is_space b then rest else b ∷ bs

abbrev end_of : ℕ → List ℕ → List ℕ
end_of b [] = if is_space b then [] else b ∷ []
end_of b (c ∷ cs) = b ∷ c ∷ cs

unfoldable pub trim_back : List ℕ → List ℕ
trim_back [] = []
trim_back (b ∷ bs) = end_of b (trim_back bs)

abbrev pub trim_space : List ℕ → List ℕ
trim_space line = trim_back (trim_front line)

abbrev pub go_word : List ℕ
go_word = b'g' ∷ b'o' ∷ []

module _ (sys : Programs) where
  -- Events, the number of typed lines that a program has read, and the state behind them.
  abbrev pub Round : Type 0
  Round = List Event × (ℕ × sys.World)

  -- A foreground run, with the error that doline returns and the loop prints.
  abbrev pub finished : List (List ℕ) → Option Error × (ℕ × sys.World) → Round
  finished command (none, w) = (ran command ∷ [], w)
  finished command (some e, w) = (ran command ∷ reported e ∷ [], w)

  -- runApp, with the name in front of the arguments: no recover meets a panic of the program.
  unfoldable pub run_app : sys.World → List ℕ → List (List ℕ) → Bool → Result Round
  run_app w name args bg =
      if sys.registered name
      then (if bg
          then ok (started (name ∷ args) ∷ [], (0, w))
          else (sys.run w (name ∷ args) >>= λ r. ok (finished (name ∷ args) r)))
      else ok (not_found (name ∷ args) ∷ [], (0, w))

  -- The words of a command: list[0] of no words panics.
  abbrev pub run_words : sys.World → List (List ℕ) → Bool → Result Round
  run_words w [] bg = panic
  run_words w (name ∷ args) bg = run_app w name args bg

  abbrev pub do_words : sys.World → List (List ℕ) → Result Round
  do_words w [] = panic
  do_words w (first ∷ words) =
      if same_path first go_word then run_words w words true else run_words w (first ∷ words) false

  abbrev pub do_parsed : sys.World → Attempt (List (List ℕ)) → Result Round
  do_parsed w (failed e) = ok (reported e ∷ [], (0, w))
  do_parsed w (done words) = do_words w words

  -- doline, with the error that is printed.
  unfoldable pub doline : sys.World → List ℕ → Result Round
  unfolding run_app
  doline w line = do_parsed w (sys.parse line)

  -- One round of the loop of main.
  abbrev pub prompt_line : sys.World → List ℕ → Result Round
  prompt_line w [] = ok ([], (0, w))
  prompt_line w (b ∷ bs) = doline w (b ∷ bs) >>= λ r. ok (remembered (b ∷ bs) ∷ r.0, r.1)

  -- main, where the next `taken` lines go to the program that has read them.
  unfoldable pub main : sys.World → ℕ → List (List ℕ) → Result (List Event × sys.World)
  unfolding doline trim_front trim_back
  main w taken [] = ok (exited ∷ [], w)
  main w zero (line ∷ lines) =
      prompt_line w (trim_space line) >>= λ r. main r.1.1 r.1.0 lines >>= λ s. ok (r.0 ++ s.0, s.1)
  main w (suc taken) (line ∷ lines) = main w taken lines

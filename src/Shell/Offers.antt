-- ===== src/Shell/Offers.antt =====
-- app/sh/autocomplete.go: what the completions of a line have to do with it.
use eggos.Base.{ℕ, Option, none, some, List, [], ◌∷◌, ◌++◌}
use eggos.Isyscall.{Attempt}
use eggos.Paths.{after_prefix}
use eggos.Shell.{Opened, trim_left, words, drop_go, offer, offers, complete_words, autocomplete}

-- All completions begin with the line.
pub data AllExtend (line : List ℕ) : List (List ℕ) → Type 0 where
  none_left : AllExtend line []
  extends :
      {l : List (List ℕ)} → (more : List ℕ) → AllExtend line l → AllExtend line ((line ++ more) ∷ l)

offer-AllExtend :
    (line : List ℕ) (m : Option (List ℕ)) (l : List (List ℕ))
    → AllExtend line l
    → AllExtend line (offer line m l)
offer-AllExtend line none l h = h
offer-AllExtend line (some more) l h = extends more h

offers-AllExtend : (line last : List ℕ) (l : List (List ℕ)) → AllExtend line (offers line last l)
unfolding offers
offers-AllExtend line last [] = none_left
offers-AllExtend line last (s ∷ l) =
    offer-AllExtend line (after_prefix last s) (offers line last l) (offers-AllExtend line last l)

complete_words-AllExtend :
    (open_name : List ℕ → Attempt Opened) (apps : List (List ℕ)) (line : List ℕ)
    (ws : List (List ℕ))
    → AllExtend line (complete_words open_name apps line ws)
complete_words-AllExtend open_name apps line [] = offers-AllExtend line [] apps
complete_words-AllExtend open_name apps line (w ∷ []) = offers-AllExtend line w apps
complete_words-AllExtend open_name apps line (w ∷ x ∷ ws) = offers-AllExtend line _ _

-- Whatever the line, the programs and the files: every completion begins with the line as it was
-- typed, from its first byte that is no space.
pub autocomplete-AllExtend :
    (open_name : List ℕ → Attempt Opened) (apps : List (List ℕ)) (line : List ℕ)
    → AllExtend (trim_left line) (autocomplete open_name apps line)
unfolding autocomplete
autocomplete-AllExtend open_name apps line =
    complete_words-AllExtend open_name apps (trim_left line) (drop_go (words (trim_left line)))

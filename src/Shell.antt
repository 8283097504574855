-- ===== src/Shell.antt =====
-- app/sh/autocomplete.go: the completions that the shell offers for a line. The file system is a
-- parameter: what opening a name gives; so are the names of the programs.
pub mod Offers
pub mod Run
pub mod Tests
use eggos.Base.{
  ℕ, zero, suc, Bool, true, false, Option, none, some, List, [], ◌∷◌, ◌++◌, ◌==◌, if◌then◌else◌,
}
use eggos.Isyscall.{Attempt, done, failed}
use eggos.Paths.{slash, dot, same_path, after_prefix, clean, join_path}

abbrev pub space : ℕ
space = 32

-- An open directory or file: whether it is a directory, and the names in it.
pub record Opened : Type 0 where
  pub is_dir : Attempt Bool
  pub entries : Attempt (List (List ℕ))

-- strings.TrimLeft(line, " ")
unfoldable pub trim_left : List ℕ → List ℕ
trim_left [] = []
trim_left (b ∷ bs) = let rest = trim_left bs in if b == space then rest else b ∷ bs

-- strings.Split(line, " ")
abbrev add_byte : ℕ → List (List ℕ) → List (List ℕ)
add_byte b [] = (b ∷ []) ∷ []
add_byte b (w ∷ ws) = (b ∷ w) ∷ ws

unfoldable pub words : List ℕ → List (List ℕ)
words [] = [] ∷ []
words (b ∷ bs) = let rest = words bs in if b == space then [] ∷ rest else add_byte b rest

-- "go" in front of a command is passed over.
abbrev pub drop_go : List (List ℕ) → List (List ℕ)
drop_go [] = []
drop_go (w ∷ ws) = if same_path w (b'g' ∷ b'o' ∷ []) then ws else w ∷ ws

abbrev last_word : List ℕ → List (List ℕ) → List ℕ
last_word w [] = w
last_word w (x ∷ xs) = last_word x xs

-- path.Dir
abbrev or_cut : ℕ → List ℕ → List ℕ
or_cut b [] = if b == slash then b ∷ [] else []
or_cut b (c ∷ cs) = b ∷ c ∷ cs

unfoldable pub up_to_slash : List ℕ → List ℕ
up_to_slash [] = []
up_to_slash (b ∷ bs) = or_cut b (up_to_slash bs)

abbrev pub dir_of : List ℕ → List ℕ
dir_of path = clean (up_to_slash path)

unfoldable pub join_prefix : List ℕ → List (List ℕ) → List (List ℕ)
join_prefix dir [] = []
join_prefix dir (n ∷ ns) = join_path dir n ∷ join_prefix dir ns

abbrev names_in : List ℕ → Attempt (List (List ℕ)) → List (List ℕ)
names_in dir (failed e) = []
names_in dir (done names) = join_prefix dir names

-- A name that opens is complete: only a directory has more to offer.
abbrev complete_opened : List ℕ → Opened → Attempt Bool → List (List ℕ)
complete_opened start f (failed e) = []
complete_opened start f (done false) = []
complete_opened start f (done true) = names_in start f.entries

abbrev complete_dir : List ℕ → Attempt Opened → List (List ℕ)
complete_dir dir (failed e) = []
complete_dir dir (done f) = names_in dir f.entries

abbrev complete_from : (List ℕ → Attempt Opened) → List ℕ → Attempt Opened → List (List ℕ)
complete_from open_name start (done f) = complete_opened start f f.is_dir
complete_from open_name start (failed e) = complete_dir (dir_of start) (open_name (dir_of start))

abbrev or_here : List ℕ → List ℕ
or_here [] = dot ∷ []
or_here (b ∷ bs) = b ∷ bs

-- completeFile
unfoldable pub complete_file : (List ℕ → Attempt Opened) → List ℕ → List (List ℕ)
complete_file open_name start = complete_from open_name (or_here start) (open_name (or_here start))

-- The last loop of autocomplete.
abbrev pub offer : List ℕ → Option (List ℕ) → List (List ℕ) → List (List ℕ)
offer line none rest = rest
offer line (some more) rest = (line ++ more) ∷ rest

unfoldable pub offers : List ℕ → List ℕ → List (List ℕ) → List (List ℕ)
offers line last [] = []
offers line last (s ∷ l) = offer line (after_prefix last s) (offers line last l)

abbrev pub complete_words :
    (List ℕ → Attempt Opened) → List (List ℕ) → List ℕ → List (List ℕ) → List (List ℕ)
complete_words open_name apps line [] = offers line [] apps
complete_words open_name apps line (w ∷ []) = offers line w apps
complete_words open_name apps line (w ∷ x ∷ ws) =
    offers line (last_word x ws) (complete_file open_name (last_word x ws))

unfoldable pub autocomplete : (List ℕ → Attempt Opened) → List (List ℕ) → List ℕ → List (List ℕ)
unfolding offers complete_file words
autocomplete open_name apps line =
    complete_words open_name apps (trim_left line) (drop_go (words (trim_left line)))

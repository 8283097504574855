-- ===== src/Paths.antt =====
-- What fs/stripprefix and fs/chdir stand on: the interface afero.Fs as a record over a state of
-- its own, and the path functions of the Go library that they call, on the bytes of a path.
pub mod Strip
pub mod Chdir
pub mod Logger
pub mod Tests
use eggos.Base.{
  ℕ, zero, suc, Bool, true, false, not, Option, none, some, List, [], ◌∷◌, ◌++◌, ◌&&◌, ◌||◌, ◌==◌,
  if◌then◌else◌,
}
pub use eggos.Isyscall.{Attempt, done, failed}
use eggos.Isyscall.{Error}

-- afero.Fs: each method, with the state of the file system. `none` of a method without a value
-- means success.
pub record FileSystem : Type 1 where
  pub World : Type 0
  pub Handle : Type 0
  pub Info : Type 0
  pub is_dir : Info → Bool
  pub create : World → List ℕ → Attempt Handle × World
  pub mkdir : World → List ℕ → ℕ → Option Error × World
  pub mkdir_all : World → List ℕ → ℕ → Option Error × World
  pub open_name : World → List ℕ → Attempt Handle × World
  pub open_file : World → List ℕ → ℕ → ℕ → Attempt Handle × World
  pub remove : World → List ℕ → Option Error × World
  pub remove_all : World → List ℕ → Option Error × World
  pub rename : World → List ℕ → List ℕ → Option Error × World
  pub stat : World → List ℕ → Attempt Info
  pub chmod : World → List ℕ → ℕ → Option Error × World
  pub chtimes : World → List ℕ → ℕ → ℕ → Option Error × World

abbrev pub slash : ℕ
slash = 47

abbrev pub dot : ℕ
dot = 46

-- filepath.IsAbs
abbrev pub is_abs : List ℕ → Bool
is_abs [] = false
is_abs (b ∷ ys) = b == slash

unfoldable pub same_path : List ℕ → List ℕ → Bool
same_path [] [] = true
same_path [] (b ∷ ys) = false
same_path (a ∷ xs) [] = false
same_path (a ∷ xs) (b ∷ ys) = a == b && same_path xs ys

-- strings.TrimPrefix: what follows the prefix, if it is one.
abbrev or_whole : List ℕ → Option (List ℕ) → List ℕ
or_whole name none = name
or_whole name (some rest) = rest

unfoldable pub after_prefix : List ℕ → List ℕ → Option (List ℕ)
after_prefix [] name = some name
after_prefix (a ∷ xs) [] = none
after_prefix (a ∷ xs) (b ∷ ys) = let rest = after_prefix xs ys in if a == b then rest else none

abbrev pub trim_prefix : List ℕ → List ℕ → List ℕ
trim_prefix name start = or_whole name (after_prefix start name)

-- The elements of a path between its slashes.
abbrev pub first_element : ℕ → List (List ℕ) → List (List ℕ)
first_element b [] = (b ∷ []) ∷ []
first_element b (e ∷ es) = (b ∷ e) ∷ es

unfoldable pub elements : List ℕ → List (List ℕ)
elements [] = [] ∷ []
elements (b ∷ ys) = let rest = elements ys in if b == slash then [] ∷ rest else first_element b rest

-- filepath.Clean keeps the elements that count, the last one first: `..` removes the one before
-- it, and nothing lies above the root.
abbrev up : Bool → List (List ℕ) → List (List ℕ)
up rooted [] = if rooted then [] else (dot ∷ dot ∷ []) ∷ []
up rooted (e ∷ es) = if same_path e (dot ∷ dot ∷ []) then (dot ∷ dot ∷ []) ∷ e ∷ es else es

unfoldable pub keep : Bool → List (List ℕ) → List ℕ → List (List ℕ)
keep rooted kept e =
    if same_path e [] || same_path e (dot ∷ [])
    then kept
    else if same_path e (dot ∷ dot ∷ [])
    then up rooted kept
    else e ∷ kept

unfoldable pub keep_all : Bool → List (List ℕ) → List (List ℕ) → List (List ℕ)
keep_all rooted kept [] = kept
keep_all rooted kept (e ∷ es) = keep_all rooted (keep rooted kept e) es

-- The kept elements in order, with slashes between them.
unfoldable pub join_kept : List (List ℕ) → List ℕ → List ℕ
join_kept [] path = path
join_kept (e ∷ []) path = e ++ path
join_kept (e ∷ f ∷ es) path = join_kept (f ∷ es) (slash ∷ e ++ path)

abbrev or_dot : List ℕ → List ℕ
or_dot [] = dot ∷ []
or_dot (b ∷ ys) = b ∷ ys

unfoldable pub clean : List ℕ → List ℕ
clean path =
    let kept = join_kept (keep_all (is_abs path) [] (elements path)) [] in
    if is_abs path then slash ∷ kept else or_dot kept

-- filepath.Join of two elements, which passes over empty ones.
unfoldable pub join_path : List ℕ → List ℕ → List ℕ
join_path [] [] = []
join_path [] (b ∷ ys) = clean (b ∷ ys)
join_path (a ∷ xs) [] = clean (a ∷ xs)
join_path (a ∷ xs) (b ∷ ys) = clean ((a ∷ xs) ++ (slash ∷ b ∷ ys))

-- ===== src/Paths/Chdir.antt =====
-- fs/chdir/chdir.go: a file system with a current directory.
use eggos.Base.{
  ℕ, ◌==◌, ◌≡◌, refl, Bool, true, false, not, Option, none, some, List, [], ◌∷◌, ◌++◌, ◌&&◌,
  if◌then◌else◌, arith, Bool-cases, inl, inr,
}
use eggos.Isyscall.{Error, other}
use eggos.Paths.{
  FileSystem, Attempt, done, failed, slash, dot, is_abs, same_path, up, keep, keep_all, elements,
  first_element, join_kept, clean, join_path,
}

-- name
unfoldable pub full_name : List ℕ → List ℕ → List ℕ
full_name dir name = if is_abs name then name else join_path dir name

-- What Chdir leaves as the current directory, and its error.
abbrev changed : {A : Type 0} → (A → Bool) → List ℕ → List ℕ → Attempt A → List ℕ × Option Error
changed is_dir dir name (failed e) = (dir, some e)
changed is_dir dir name (done fi) = if is_dir fi then (name, none) else (dir, some other)

unfoldable pub chdir :
    (backend : FileSystem) → backend.World → List ℕ → List ℕ → List ℕ × Option Error
chdir backend w dir name =
    changed backend.is_dir dir (full_name dir name) (backend.stat w (full_name dir name))

-- The methods, while dir is the current directory.
abbrev pub chdir_fs : List ℕ → FileSystem → FileSystem
chdir_fs dir backend = record {
  World = backend.World;
  Handle = backend.Handle;
  Info = backend.Info;
  is_dir = backend.is_dir;
  create = λ w name. backend.create w (full_name dir name);
  mkdir = λ w name perm. backend.mkdir w (full_name dir name) perm;
  mkdir_all = λ w name perm. backend.mkdir_all w (full_name dir name) perm;
  open_name = λ w name. backend.open_name w (full_name dir name);
  open_file = λ w name flag perm. backend.open_file w (full_name dir name) flag perm;
  remove = λ w name. backend.remove w (full_name dir name);
  remove_all = λ w name. backend.remove_all w (full_name dir name);
  rename = λ w old name. backend.rename w (full_name dir old) (full_name dir name);
  stat = λ w name. backend.stat w (full_name dir name);
  chmod = λ w name mode. backend.chmod w (full_name dir name) mode;
  chtimes = λ w name atime mtime. backend.chtimes w (full_name dir name) atime mtime;
}

is_abs-clean : (path : List ℕ) → is_abs path ≡ true → is_abs (clean path) ≡ true
unfolding clean
is_abs-clean path h = rw h refl

is_abs-join_path : (dir name : List ℕ) → is_abs dir ≡ true → is_abs (join_path dir name) ≡ true
unfolding join_path
is_abs-join_path [] name h = cc
is_abs-join_path (a ∷ xs) [] h = is_abs-clean (a ∷ xs) h
is_abs-join_path (a ∷ xs) (b ∷ ys) h = is_abs-clean ((a ∷ xs) ++ (slash ∷ b ∷ ys)) h

pub is_abs-full_name : (dir name : List ℕ) → is_abs dir ≡ true → is_abs (full_name dir name) ≡ true
unfolding full_name
is_abs-full_name dir name h = elim (Bool-cases (is_abs name)) [
  | inl a ↦ rw a a
  | inr r ↦ rw r (is_abs-join_path dir name h)
]

-- Changes of the directory, one after the other; each leaves a state of the file system behind.
unfoldable pub go_to : (backend : FileSystem) → List (backend.World × List ℕ) → List ℕ → List ℕ
go_to backend [] dir = dir
go_to backend ((w, name) ∷ moves) dir = go_to backend moves (chdir backend w dir name).0

chdir-is_abs :
    (backend : FileSystem) (w : backend.World) (dir name : List ℕ)
    → is_abs dir ≡ true
    → is_abs (chdir backend w dir name).0 ≡ true
unfolding chdir
chdir-is_abs backend w dir name h = by_answer (backend.stat w (full_name dir name))
  where
    by_answer :
        (r : Attempt backend.Info)
        → is_abs (changed backend.is_dir dir (full_name dir name) r).0 ≡ true
    by_answer (failed e) = h
    by_answer (done fi) = ground (arith, h, is_abs-full_name dir name h)

go_to-is_abs :
    (backend : FileSystem) (moves : List (backend.World × List ℕ)) (dir : List ℕ)
    → is_abs dir ≡ true
    → is_abs (go_to backend moves dir) ≡ true
unfolding go_to
go_to-is_abs backend [] dir h = h
go_to-is_abs backend ((w, name) ∷ moves) dir h =
    go_to-is_abs backend moves (chdir backend w dir name).0 (chdir-is_abs backend w dir name h)

-- Is there no slash in it?
unfoldable pub is_element : List ℕ → Bool
is_element [] = true
is_element (b ∷ bs) = not (b == slash) && is_element bs

-- An element that stays in a clean path: a name without a slash, and none of the empty one, `.` and
-- `..`.
abbrev pub is_normal : List ℕ → Bool
is_normal e =
    is_element e
    && (not (same_path e [])
        && (not (same_path e (dot ∷ [])) && not (same_path e (dot ∷ dot ∷ []))))

unfoldable pub all_elements : List (List ℕ) → Bool
all_elements [] = true
all_elements (e ∷ es) = is_element e && all_elements es

-- One more byte in the first of the elements.
elements-cons :
    (b : ℕ) (es : List (List ℕ))
    → (b == slash) ≡ false
    → all_elements es ≡ true
    → all_elements (first_element b es) ≡ true
unfolding all_elements is_element
elements-cons b [] h a = rw h refl
elements-cons b (e ∷ es) h a = rw h a

all_elements-elements : (path : List ℕ) → all_elements (elements path) ≡ true
unfolding elements all_elements is_element
all_elements-elements [] = refl
all_elements-elements (b ∷ bs) = elim (Bool-cases (b == slash)) [
  | inl h ↦ rw h (all_elements-elements bs)
  | inr h ↦ rw h (elements-cons b (elements bs) h (all_elements-elements bs))
]

unfoldable pub all_normal : List (List ℕ) → Bool
all_normal [] = true
all_normal (e ∷ es) = is_normal e && all_normal es

up-normal : (kept : List (List ℕ)) → all_normal kept ≡ true → all_normal (up true kept) ≡ true
unfolding all_normal
up-normal [] h = refl
up-normal (e ∷ es) h = ground arith

keep-normal :
    (kept : List (List ℕ)) (e : List ℕ)
    → is_element e ≡ true
    → all_normal kept ≡ true
    → all_normal (keep true kept e) ≡ true
unfolding keep all_normal
keep-normal kept e s h = ground (arith, s, h, up-normal kept h)

keep_all-normal :
    (kept es : List (List ℕ))
    → all_elements es ≡ true
    → all_normal kept ≡ true
    → all_normal (keep_all true kept es) ≡ true
unfolding keep_all all_elements
keep_all-normal kept [] s h = h
keep_all-normal kept (e ∷ es) s h =
    keep_all-normal (keep true kept e) es (ground (arith, s))
      (keep-normal kept e (ground (arith, s)) h)

-- A path from the root, of elements that name files.
pub record IsClean (path : List ℕ) : Type 0 where
  pub kept : List (List ℕ)
  pub normal : all_normal kept ≡ true
  pub written : path ≡ slash ∷ join_kept kept []

clean-IsClean : (path : List ℕ) → is_abs path ≡ true → IsClean (clean path)
unfolding clean all_normal
clean-IsClean path h = record {
  kept = keep_all true [] (elements path);
  normal = keep_all-normal [] (elements path) (all_elements-elements path) refl;
  written = rw h refl;
}

join_path-IsClean : (dir name : List ℕ) → is_abs dir ≡ true → IsClean (join_path dir name)
unfolding join_path
join_path-IsClean [] name h = cc
join_path-IsClean (a ∷ xs) [] h = clean-IsClean (a ∷ xs) h
join_path-IsClean (a ∷ xs) (b ∷ ys) h = clean-IsClean ((a ∷ xs) ++ (slash ∷ b ∷ ys)) h

-- However the directory was changed since the start, where it is the root, and whatever the file
-- system answered: a relative name reaches it as a path from the root whose elements, from the
-- last to the first, have no slash in them and are none of the empty one, `.` and `..`, so that it
-- never leads above the root.
pub full_name-IsClean :
    (backend : FileSystem) (moves : List (backend.World × List ℕ)) (name : List ℕ)
    → is_abs name ≡ false
    → IsClean (full_name (go_to backend moves (slash ∷ [])) name)
unfolding full_name
full_name-IsClean backend moves name h = rw h (
    join_path-IsClean (go_to backend moves (slash ∷ [])) name
      (go_to-is_abs backend moves (slash ∷ []) refl))

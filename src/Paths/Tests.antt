-- ===== src/Paths/Tests.antt =====
-- Paths in a file system that knows directories by the letter d at the end of their name.
use eggos.Base.{ℕ, ◌≡◌, refl, true, none, List, [], ◌∷◌, ◌++◌}
use eggos.Isyscall.{not_exist}
use eggos.Paths.{
  FileSystem, done, failed, slash, dot, same_path, keep, keep_all, elements, join_kept, clean,
  join_path, after_prefix,
}
use eggos.Paths.Strip.{strip}
use eggos.Paths.Chdir.{full_name, chdir, go_to, IsClean, full_name-IsClean}

-- Every name is there; a handle is the name, the state the names that were opened.
abbrev pub names : FileSystem
names = record {
  World = List (List ℕ);
  Handle = List ℕ;
  Info = List ℕ;
  is_dir = λ i. true;
  create = λ w p. (done p, p ∷ w);
  mkdir = λ w p perm. (none, w);
  mkdir_all = λ w p perm. (none, w);
  open_name = λ w p. (done p, p ∷ w);
  open_file = λ w p flag perm. (done p, p ∷ w);
  remove = λ w p. (none, w);
  remove_all = λ w p. (none, w);
  rename = λ w p q. (none, p ∷ q ∷ w);
  stat = λ w p. done p;
  chmod = λ w p mode. (none, w);
  chtimes = λ w p atime mtime. (none, w);
}

-- "/a", "/b" and "/c"
abbrev a : List ℕ
a = slash ∷ b'a' ∷ []

abbrev b : List ℕ
b = slash ∷ b'b' ∷ []

abbrev c : List ℕ
c = slash ∷ b'c' ∷ []

-- "/a" is stripped from "/a/c", from "/a" and from "/abc" alike.
strip_test :
    (strip a (a ++ c) ≡ done c)
    × (strip a a ≡ done (dot ∷ []))
    × (strip a (a ++ (b'b' ∷ b'c' ∷ [])) ≡ done (b'b' ∷ b'c' ∷ []))
    × (strip a c ≡ failed not_exist)
unfolding strip after_prefix
strip_test = (refl, refl, refl, refl)

-- "/a//b/./../../../c" is "/c".
clean_test :
    clean (
      a
      ++ (slash ∷ b
          ++ (slash ∷ dot ∷ slash ∷ dot ∷ dot ∷ slash ∷ dot ∷ dot ∷ slash ∷ dot ∷ dot ∷ c)))
    ≡ c
unfolding clean elements keep_all keep same_path join_kept
clean_test = refl

-- From the root to "a", to "..", to "b": the name "c" is then "/b/c".
go_to_test :
    full_name
      (go_to names (([], b'a' ∷ []) ∷ ([], dot ∷ dot ∷ []) ∷ ([], b'b' ∷ []) ∷ []) (slash ∷ []))
      (b'c' ∷ [])
    ≡ b ++ c
unfolding full_name go_to chdir clean elements keep_all keep same_path join_kept join_path
go_to_test = refl

full_name-IsClean_example :
    IsClean (full_name (go_to names (([], b'a' ∷ []) ∷ []) (slash ∷ [])) (dot ∷ dot ∷ c))
full_name-IsClean_example = full_name-IsClean names (([], b'a' ∷ []) ∷ []) (dot ∷ dot ∷ c) refl

-- ===== src/Paths/Strip.antt =====
-- fs/stripprefix/stripprefix.go: a file system under a prefix.
use eggos.Base.{
  ℕ, ◌≡◌, refl, true, false, not, Option, some, List, [], ◌∷◌, ◌++◌, ◌==◌, if◌then◌else◌, length,
  length-append, arith,
}
use eggos.Isyscall.{Error, not_exist}
use eggos.Paths.{FileSystem, Attempt, done, failed, dot, is_abs, after_prefix, trim_prefix}

abbrev pub or_here : List ℕ → List ℕ
or_here [] = dot ∷ []
or_here (b ∷ bs) = b ∷ bs

-- strip
unfoldable pub strip : List ℕ → List ℕ → Attempt (List ℕ)
strip start name =
    if not (is_abs name)
    then done name
    else if length (trim_prefix name start) == length name
    then failed not_exist
    else done (or_here (trim_prefix name start))

-- The methods go on with the stripped name, or return its error.
abbrev pub strip_open :
    {W A : Type 0} → W → Attempt (List ℕ) → (List ℕ → Attempt A × W) → Attempt A × W
strip_open w (failed e) k = (failed e, w)
strip_open w (done p) k = k p

abbrev pub strip_do :
    {W : Type 0} → W → Attempt (List ℕ) → (List ℕ → Option Error × W) → Option Error × W
strip_do w (failed e) k = (some e, w)
strip_do w (done p) k = k p

abbrev pub strip_stat : {A : Type 0} → Attempt (List ℕ) → (List ℕ → Attempt A) → Attempt A
strip_stat (failed e) k = failed e
strip_stat (done p) k = k p

abbrev pub strip_fs : List ℕ → FileSystem → FileSystem
strip_fs start backend = record {
  World = backend.World;
  Handle = backend.Handle;
  Info = backend.Info;
  is_dir = backend.is_dir;
  create = λ w name. strip_open w (strip start name) (backend.create w);
  mkdir = λ w name perm. strip_do w (strip start name) (λ p. backend.mkdir w p perm);
  mkdir_all = λ w name perm. strip_do w (strip start name) (λ p. backend.mkdir_all w p perm);
  open_name = λ w name. strip_open w (strip start name) (backend.open_name w);
  open_file =
      λ w name flag perm. strip_open w (strip start name) (λ p. backend.open_file w p flag perm);
  remove = λ w name. strip_do w (strip start name) (backend.remove w);
  remove_all = λ w name. strip_do w (strip start name) (backend.remove_all w);
  rename = λ w old name.
      strip_do w (strip start old) (λ p. strip_do w (strip start name) (backend.rename w p));
  stat = λ w name. strip_stat (strip start name) (backend.stat w);
  chmod = λ w name mode. strip_do w (strip start name) (λ p. backend.chmod w p mode);
  chtimes =
      λ w name atime mtime. strip_do w (strip start name) (λ p. backend.chtimes w p atime mtime);
}

after_prefix-append : (start p : List ℕ) → after_prefix start (start ++ p) ≡ some p
unfolding after_prefix
after_prefix-append [] p = refl
after_prefix-append (a ∷ xs) p = ground (arith, after_prefix-append xs p)

is_abs-append : (start p : List ℕ) → is_abs start ≡ true → is_abs (start ++ p) ≡ true
is_abs-append [] p h = cc
is_abs-append (a ∷ xs) p h = h

nonempty : (start p : List ℕ) → is_abs start ≡ true → (length p == length (start ++ p)) ≡ false
nonempty [] p h = cc
nonempty (a ∷ xs) p h = ground (arith, length-append xs p)

-- A name that begins with the absolute prefix is stripped to what follows it, whatever that is:
-- also where the prefix ends inside an element of the name.
pub strip-append :
    (start p : List ℕ) → is_abs start ≡ true → strip start (start ++ p) ≡ done (or_here p)
unfolding strip
strip-append start p h =
    rw (is_abs-append start p h, after_prefix-append start p, nonempty start p h) refl

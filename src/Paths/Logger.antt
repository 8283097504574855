-- ===== src/Paths/Logger.antt =====
-- fs/logger/logger.go: a file system that writes a line about each call behind the call. The lines
-- are the calls with the error that they ended with; fmt makes their text.
pub mod Quiet
use eggos.Base.{ℕ, Option, none, some, List, [], ◌∷◌, ◌++◌}
use eggos.Isyscall.{Error}
use eggos.Paths.{FileSystem, Attempt, done, failed}

-- A call of a method of afero.Fs, with its arguments.
pub data Call : Type 0 where
  create_file open_name remove_file remove_tree stat_name : List ℕ → Call
  make_dir make_dirs change_mode : List ℕ → ℕ → Call
  open_with change_times : List ℕ → ℕ → ℕ → Call
  rename_file : List ℕ → List ℕ → Call

pub record Entry : Type 0 where
  pub call : Call
  pub err : Option Error

abbrev pub error_of : {A : Type 0} → Attempt A → Option Error
error_of (done a) = none
error_of (failed e) = some e

abbrev pub line : Call → Option Error → List Entry
line c err = record { call = c; err = err } ∷ []

module _ (fs : FileSystem) where
  -- The state of the backend, and what has been written.
  abbrev pub Logged : Type 0
  Logged = fs.World × List Entry

  -- A result of the backend, passed on with a line about it.
  abbrev passed : {A : Type 0} → Call → List Entry → A × fs.World → Option Error → A × Logged
  passed c log r err = (r.0, (r.1, log ++ line c err))

  unfoldable pub create : Logged → List ℕ → Attempt fs.Handle × Logged
  create (w, log) name = let r = fs.create w name in passed (create_file name) log r (error_of r.0)

  unfoldable pub mkdir : Logged → List ℕ → ℕ → Option Error × Logged
  mkdir (w, log) name perm = let r = fs.mkdir w name perm in passed (make_dir name perm) log r r.0

  unfoldable pub mkdir_all : Logged → List ℕ → ℕ → Option Error × Logged
  mkdir_all (w, log) path perm =
      let r = fs.mkdir_all w path perm in passed (make_dirs path perm) log r r.0

  unfoldable pub open_file_named : Logged → List ℕ → Attempt fs.Handle × Logged
  open_file_named (w, log) name =
      let r = fs.open_name w name in passed (open_name name) log r (error_of r.0)

  unfoldable pub open_file : Logged → List ℕ → ℕ → ℕ → Attempt fs.Handle × Logged
  open_file (w, log) name flag perm =
      let r = fs.open_file w name flag perm in
      passed (open_with name flag perm) log r (error_of r.0)

  unfoldable pub remove : Logged → List ℕ → Option Error × Logged
  remove (w, log) name = let r = fs.remove w name in passed (remove_file name) log r r.0

  unfoldable pub remove_all : Logged → List ℕ → Option Error × Logged
  remove_all (w, log) path = let r = fs.remove_all w path in passed (remove_tree path) log r r.0

  unfoldable pub rename : Logged → List ℕ → List ℕ → Option Error × Logged
  rename (w, log) old new = let r = fs.rename w old new in passed (rename_file old new) log r r.0

  unfoldable pub stat : Logged → List ℕ → Attempt fs.Info × Logged
  stat (w, log) name = let r = fs.stat w name in passed (stat_name name) log (r, w) (error_of r)

  unfoldable pub chmod : Logged → List ℕ → ℕ → Option Error × Logged
  chmod (w, log) name mode =
      let r = fs.chmod w name mode in passed (change_mode name mode) log r r.0

  unfoldable pub chtimes : Logged → List ℕ → ℕ → ℕ → Option Error × Logged
  chtimes (w, log) name atime mtime =
      let r = fs.chtimes w name atime mtime in passed (change_times name atime mtime) log r r.0

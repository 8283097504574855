-- ===== src/Paths/Logger/Quiet.antt =====
-- A program cannot tell a logged file system from the one behind it.
pub mod Tests
use eggos.Base.{
  ℕ, zero, suc, ◌≡◌, refl, sym, ap, ◌∙◌, Option, none, some, List, [], ◌∷◌, ◌++◌, append_assoc,
  append-nil,
}
use eggos.Isyscall.{Error}
use eggos.Paths.{FileSystem, Attempt, done, failed}
use eggos.Paths.Logger.{
  Call, create_file, open_name, remove_file, remove_tree, stat_name, make_dir, make_dirs,
  change_mode, open_with, change_times, rename_file, Entry, line, error_of, Logged, create, mkdir,
  mkdir_all, open_file_named, open_file, remove, remove_all, rename, stat, chmod, chtimes,
}

-- What a call returns: a file, information on a file, or an error alone.
pub data Reply (fs : FileSystem) : Type 0 where
  file : Attempt fs.Handle → Reply fs
  info : Attempt fs.Info → Reply fs
  status : Option Error → Reply fs

module _ (fs : FileSystem) where
  abbrev pub reply_error : Reply fs → Option Error
  reply_error (file a) = error_of a
  reply_error (info a) = error_of a
  reply_error (status e) = e

  -- The call, on the file system itself.
  abbrev pub on_backend : fs.World → Call → Reply fs × fs.World
  on_backend w (create_file name) = let r = fs.create w name in (file r.0, r.1)
  on_backend w (open_name name) = let r = fs.open_name w name in (file r.0, r.1)
  on_backend w (remove_file name) = let r = fs.remove w name in (status r.0, r.1)
  on_backend w (remove_tree name) = let r = fs.remove_all w name in (status r.0, r.1)
  on_backend w (stat_name name) = (info (fs.stat w name), w)
  on_backend w (make_dir name perm) = let r = fs.mkdir w name perm in (status r.0, r.1)
  on_backend w (make_dirs name perm) = let r = fs.mkdir_all w name perm in (status r.0, r.1)
  on_backend w (change_mode name mode) = let r = fs.chmod w name mode in (status r.0, r.1)
  on_backend w (open_with name flag perm) = let r = fs.open_file w name flag perm in (file r.0, r.1)
  on_backend w (change_times name a m) = let r = fs.chtimes w name a m in (status r.0, r.1)
  on_backend w (rename_file old new) = let r = fs.rename w old new in (status r.0, r.1)

  -- The call, on the logged file system.
  unfoldable pub on_logger : Logged fs → Call → Reply fs × Logged fs
  unfolding create mkdir mkdir_all open_file_named open_file remove remove_all rename stat chmod
      chtimes
  on_logger l (create_file name) = let r = create fs l name in (file r.0, r.1)
  on_logger l (open_name name) = let r = open_file_named fs l name in (file r.0, r.1)
  on_logger l (remove_file name) = let r = remove fs l name in (status r.0, r.1)
  on_logger l (remove_tree name) = let r = remove_all fs l name in (status r.0, r.1)
  on_logger l (stat_name name) = let r = stat fs l name in (info r.0, r.1)
  on_logger l (make_dir name perm) = let r = mkdir fs l name perm in (status r.0, r.1)
  on_logger l (make_dirs name perm) = let r = mkdir_all fs l name perm in (status r.0, r.1)
  on_logger l (change_mode name mode) = let r = chmod fs l name mode in (status r.0, r.1)
  on_logger l (open_with name flag perm) = let r = open_file fs l name flag perm in (file r.0, r.1)
  on_logger l (change_times name a m) = let r = chtimes fs l name a m in (status r.0, r.1)
  on_logger l (rename_file old new) = let r = rename fs l old new in (status r.0, r.1)

  on_logger-backend :
      (w : fs.World) (log : List Entry) (c : Call)
      → on_logger (w, log) c
        ≡ ((on_backend w c).0, ((on_backend w c).1, log ++ line c (reply_error (on_backend w c).0)))
  unfolding on_logger
  on_logger-backend w log (create_file name) = refl
  on_logger-backend w log (open_name name) = refl
  on_logger-backend w log (remove_file name) = refl
  on_logger-backend w log (remove_tree name) = refl
  on_logger-backend w log (stat_name name) = refl
  on_logger-backend w log (make_dir name perm) = refl
  on_logger-backend w log (make_dirs name perm) = refl
  on_logger-backend w log (change_mode name mode) = refl
  on_logger-backend w log (open_with name flag perm) = refl
  on_logger-backend w log (change_times name a m) = refl
  on_logger-backend w log (rename_file old new) = refl

  -- A program: each call may depend on the replies so far, the last one first.
  abbrev pub Program : Type 0
  Program = List (Reply fs) → Call

  unfoldable pub run_backend : Program → ℕ → fs.World → List (Reply fs) → List (Reply fs) × fs.World
  run_backend p zero w replies = (replies, w)
  run_backend p (suc n) w replies =
      let r = on_backend w (p replies) in run_backend p n r.1 (r.0 ∷ replies)

  unfoldable pub run_logger :
      Program → ℕ → Logged fs → List (Reply fs) → List (Reply fs) × Logged fs
  run_logger p zero l replies = (replies, l)
  run_logger p (suc n) l replies =
      let r = on_logger l (p replies) in run_logger p n r.1 (r.0 ∷ replies)

  -- The lines that n calls of a program leave.
  unfoldable pub lines_of : Program → ℕ → fs.World → List (Reply fs) → List Entry
  lines_of p zero w replies = []
  lines_of p (suc n) w replies =
      let r = on_backend w (p replies) in
      line (p replies) (reply_error r.0) ++ lines_of p n r.1 (r.0 ∷ replies)

  -- For any number of calls of a program whose next call depends on the replies before, the logged
  -- file system gives the same replies and leaves the backend in the same state as the backend
  -- itself, and behind them the log has a line for each call, in order, with its error.
  pub run_logger-run_backend :
      (p : Program) (n : ℕ) (w : fs.World) (log : List Entry) (replies : List (Reply fs))
      → run_logger p n (w, log) replies ≡ (
        (run_backend p n w replies).0,
        ((run_backend p n w replies).1, log ++ lines_of p n w replies),
      )
  unfolding run_logger run_backend lines_of
  run_logger-run_backend p zero w log replies = ap (λ l. (replies, (w, l))) (sym (append-nil log))
  run_logger-run_backend p (suc n) w log replies =
      let r = on_backend w (p replies) in
      let here = line (p replies) (reply_error r.0) in
      let rest = run_logger-run_backend p n r.1 (log ++ here) (r.0 ∷ replies) in
      let after = run_backend p n r.1 (r.0 ∷ replies) in
      ap (λ l. run_logger p n l.1 (l.0 ∷ replies)) (on_logger-backend w log (p replies))
      ∙ rest
      ∙ ap (λ l. (after.0, (after.1, l))) (append_assoc log here (lines_of p n r.1 (r.0 ∷ replies)))

-- ===== src/Paths/Logger/Quiet/Tests.antt =====
-- A program that makes a file, and renames it when that was done.
use eggos.Base.{ℕ, ◌≡◌, List, [], ◌∷◌, ◌++◌}
use eggos.Paths.{done, failed}
use eggos.Paths.Logger.{Call, create_file, rename_file, stat_name}
use eggos.Paths.Logger.Quiet.{
  Reply, file, info, status, run_backend, run_logger, lines_of, run_logger-run_backend,
}
use eggos.Paths.Tests.{names}

abbrev old_name : List ℕ
old_name = b'x' ∷ []

abbrev new_name : List ℕ
new_name = b'y' ∷ []

abbrev maker : List (Reply names) → Call
maker [] = create_file old_name
maker (file (done h) ∷ replies) = rename_file h new_name
maker (file (failed e) ∷ replies) = stat_name old_name
maker (info a ∷ replies) = stat_name old_name
maker (status e ∷ replies) = stat_name new_name

run_logger-run_backend_example : run_logger names maker 3 ([], []) [] ≡ (
  (run_backend names maker 3 [] []).0,
  ((run_backend names maker 3 [] []).1, [] ++ lines_of names maker 3 [] []),
)
run_logger-run_backend_example = run_logger-run_backend names maker 3 [] [] []

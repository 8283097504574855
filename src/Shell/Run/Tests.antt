-- ===== src/Shell/Run/Tests.antt =====
-- A shell that knows one program, "ls", and takes the words of a line as they stand between spaces.
use eggos.Base.{ℕ, ◌≡◌, refl, none, List, [], ◌∷◌, ok, panic}
use eggos.Isyscall.{done}
use eggos.Paths.{same_path}
use eggos.Shell.{words}
use eggos.Shell.Run.{
  Programs, remembered, ran, exited, trim_front, trim_back, go_word, main, doline, run_app,
}

abbrev ls_name : List ℕ
ls_name = b'l' ∷ b's' ∷ []

abbrev little : Programs
little = record {
  World = ℕ;
  parse = λ line. done (words line);
  registered = λ name. same_path name ls_name;
  run = λ w command. ok (none, (0, w));
}

abbrev session : List (List ℕ)
session = (32 ∷ ls_name) ∷ (32 ∷ []) ∷ go_word ∷ []

-- A line with the word go alone ends the shell.
go_test : main little 0 0 (go_word ∷ []) ≡ panic
unfolding main doline run_app trim_front trim_back words same_path
go_test = refl

-- A program that reads a line gets it in place of the shell.
reader_test :
    main (record little { run = λ w command. ok (none, (1, w)) }) 0 0 (ls_name ∷ go_word ∷ [])
    ≡ ok (remembered ls_name ∷ ran (ls_name ∷ []) ∷ exited ∷ [], 0)
unfolding main doline run_app trim_front trim_back words same_path
reader_test = refl

-- ===== src/Shell/Tests.antt =====
-- Completions in a directory with the files "ab", "ac" and "b", beside the programs "ls" and "mount".
use eggos.Base.{ℕ, ◌≡◌, refl, true, List, [], ◌∷◌, if◌then◌else◌}
use eggos.Isyscall.{Attempt, done, failed, not_exist}
use eggos.Paths.{same_path, after_prefix, clean, join_path, elements, keep_all, keep, join_kept}
use eggos.Shell.{
  Opened, trim_left, words, up_to_slash, join_prefix, complete_file, offers, autocomplete,
}

abbrev here : List ℕ → Attempt Opened
here p =
    if same_path p (b'.' ∷ [])
    then done (record {
      is_dir = done true;
      entries = done ((b'a' ∷ b'b' ∷ []) ∷ (b'a' ∷ b'c' ∷ []) ∷ (b'b' ∷ []) ∷ []);
    })
    else failed not_exist

abbrev programs : List (List ℕ)
programs = (b'l' ∷ b's' ∷ []) ∷ (b'm' ∷ b'o' ∷ b'u' ∷ b'n' ∷ b't' ∷ []) ∷ []

-- " l" becomes "ls".
program_test : autocomplete here programs (32 ∷ b'l' ∷ []) ≡ (b'l' ∷ b's' ∷ []) ∷ []
unfolding autocomplete trim_left words offers same_path after_prefix
program_test = refl

-- "ls a" becomes "ls ab" and "ls ac".
file_test :
    autocomplete here programs (b'l' ∷ b's' ∷ 32 ∷ b'a' ∷ [])
    ≡ (b'l' ∷ b's' ∷ 32 ∷ b'a' ∷ b'b' ∷ []) ∷ (b'l' ∷ b's' ∷ 32 ∷ b'a' ∷ b'c' ∷ []) ∷ []
unfolding autocomplete trim_left words offers same_path after_prefix complete_file up_to_slash
    join_prefix join_path clean elements keep_all keep join_kept
file_test = refl

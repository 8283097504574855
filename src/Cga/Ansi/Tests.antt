-- ===== src/Cga/Ansi/Tests.antt =====
-- The cases of cga/ansi_test.go, and the theorems at concrete inputs.
use eggos.Base.{ℕ, ◌≡◌, refl, true, List, [], ◌∷◌, ◌++◌}
use eggos.Cga.Ansi.{
  is_param, is_final, normal_char, invalid_char, csi_done, step, split, decode_param,
}
use eggos.Cga.Ansi.Parse.{feed, fresh, sequence, join, parsed, all, feed_csi, feed_csi_sound}

abbrev twelve : List ℕ
twelve = b'1' ∷ b'2' ∷ []

abbrev twenty_four : List ℕ
twenty_four = b'2' ∷ b'4' ∷ []

-- "\x1b[12;;24G"
abbrev column : List ℕ
column = sequence (b'1' ∷ b'2' ∷ b';' ∷ b';' ∷ b'2' ∷ b'4' ∷ []) b'G'

column_params : ((feed fresh column).0).params ≡ twelve ∷ [] ∷ twenty_four ∷ []
unfolding feed step split decode_param
column_params = refl

normal_first : (feed fresh (b'X' ∷ column)).1 ≡ normal_char
unfolding feed step
normal_first = refl

invalid_second : (feed fresh (0x1b ∷ b'X' ∷ [])).1 ≡ invalid_char
unfolding feed step
invalid_second = refl

invalid_param : (feed fresh (0x1b ∷ b'[' ∷ b'1' ∷ 0 ∷ [])).1 ≡ invalid_char
unfolding feed step
invalid_param = refl

feed_csi_example :
    let (q, out) = feed fresh (sequence (join twelve ([] ∷ twenty_four ∷ [])) b'G') in
    (out ≡ csi_done)
    × (q.action ≡ b'G')
    × (q.params ≡ elim (join twelve ([] ∷ twenty_four ∷ [])) [
      | [] ↦ []
      | _ ∷ _ ↦ twelve ∷ [] ∷ twenty_four ∷ []
    ])
feed_csi_example = feed_csi twelve ([] ∷ twenty_four ∷ []) b'G' refl refl refl

feed_csi_sound_example :
    (body : List ℕ) × (f : ℕ) × (rest : List ℕ) × (sequence [] b'G' ≡ sequence body f ++ rest)
    × (all is_param body ≡ true)
    × (is_final f ≡ true)
    × (parsed [] b'G' ≡ parsed body f)
unfolding feed step
feed_csi_sound_example = feed_csi_sound (sequence [] b'G') (parsed [] b'G') refl

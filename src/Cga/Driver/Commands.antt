-- ===== src/Cga/Driver/Commands.antt =====
-- The bytes that programs send to the text console: plain text and the two escape sequences.
use eggos.Base.{
  ℕ, ◌+◌, ◌-◌, ◌*◌, ◌/◌, ◌≤◌, ◌≡◌, ◌≢◌, refl, ap, ◌∙◌, Bool, true, false, List, [], ◌∷◌, ◌==◌,
  if◌then◌else◌, ok, panic, arith,
}
use eggos.Cga.Ansi.{normal_char, esc_byte, is_param, is_final, step, decode_param}
use eggos.Cga.Ansi.Parse.{
  fresh, all, is_plain, sequence, join, parsed, params-parsed, split-join, all-join,
}
use eggos.Cga.Backend.{Backend, IsSound}
use eggos.Cga.Driver.{atoi, write_csi, with_display, act, write_byte, write_string}
use eggos.Cga.Driver.Laws.{
  driver, write_normal-Returns, set_cursor_column_lem, erase_line_lem, write_string-sequence,
}

-- No byte of the list starts an escape sequence.
abbrev pub no_esc : List ℕ → Bool
no_esc [] = true
no_esc (c ∷ s) = if c == esc_byte then false else no_esc s

pub step-text : (c : ℕ) → (c == esc_byte) ≡ false → step fresh c ≡ (fresh, normal_char)
unfolding step
step-text c h = rw h

pub params-join :
    (c : ℕ) (p : List ℕ) (qs : List (List ℕ)) (f : ℕ)
    → all is_plain (c ∷ p) ≡ true
    → all (all is_plain) qs ≡ true
    → (parsed (join (c ∷ p) qs) f).params ≡ (c ∷ p) ∷ qs
unfolding join
params-join c p [] f h k = params-parsed (c ∷ p) f ∙ split-join (c ∷ p) [] h k
params-join c p (q ∷ qs) f h k =
    params-parsed (join (c ∷ p) (q ∷ qs)) f ∙ split-join (c ∷ p) (q ∷ qs) h k

module _ (b : Backend) where
  open b use {Display}

  -- Any other final byte panics, whatever the display and the parameters are.
  pub csi_unsupported :
      (body : List ℕ) (f : ℕ) (d : Display)
      → all is_param body ≡ true
      → is_final f ≡ true
      → f ≢ b'G'
      → f ≢ b'K'
      → write_string b (driver b fresh d) (sequence body f) ≡ panic
  unfolding write_csi
  csi_unsupported body f d h k g e = write_string-sequence b body f d h k ∙ ground arith

module _ (b : Backend) (sound : IsSound b) where
  open b use {Display, get_pos}
  open sound use {IsGood}

  -- Text without an escape byte, written from a reset parser to a display whose cursor is on the
  -- screen, never panics, whatever its bytes are, and leaves such a parser and such a display.
  pub write_string_text :
      (s : List ℕ) (d : Display)
      → IsGood d
      → no_esc s ≡ true
      → (t : Display) × (write_string b (driver b fresh d) s ≡ ok (driver b fresh t)) × IsGood t
  unfolding write_string write_byte act
  write_string_text [] d g h = (d, refl, g)
  write_string_text (c ∷ s) d g h =
      let plain : (c == esc_byte) ≡ false = ground arith in
      let (t, e, g') = write_normal-Returns b sound d c g in
      let (u, e', g'') = write_string_text s t g' (ground arith) in
      (u, rw (step-text c plain, e) e', g'')

  -- CSI p ; … G, where p is the decimal numeral of a column from 1 to 80, moves the cursor to that
  -- column (counted from 1) of the row that it is in.
  pub csi_column :
      (c : ℕ) (p : List ℕ) (qs : List (List ℕ)) (d : Display)
      → IsGood d
      → all is_plain (c ∷ p) ≡ true
      → all (all is_plain) qs ≡ true
      → 1 ≤ atoi (c ∷ p)
      → atoi (c ∷ p) ≤ 80
      → (t : Display) × (write_string b (driver b fresh d) (sequence (join (c ∷ p) qs) b'G')
          ≡ ok (driver b fresh t))
        × IsGood t
        × (get_pos t ≡ get_pos d / 80 * 80 + (atoi (c ∷ p) - 1))
  unfolding write_csi
  csi_column c p qs d g h k lo hi =
      let (t, e, g', at) = set_cursor_column_lem b sound d (atoi (c ∷ p)) g lo hi in
      (
        t,
        write_string-sequence b (join (c ∷ p) qs) b'G' d (all-join (c ∷ p) qs h k) refl
            ∙ (ap (λ ps. with_display b fresh (write_csi b d b'G' ps)) (params-join c p qs b'G' h k)
                ∙ ap (with_display b fresh) e),
        g',
        at,
      )

  -- CSI K blanks from the cursor to the end of its row without a panic and leaves the cursor.
  pub csi_erase :
      (d : Display)
      → IsGood d
      → (t : Display) × (write_string b (driver b fresh d) (sequence [] b'K')
          ≡ ok (driver b fresh t))
        × IsGood t
        × (get_pos t ≡ get_pos d)
  unfolding write_csi decode_param
  csi_erase d g =
      let (t, e, g', at) = erase_line_lem b sound d g in
      (t, write_string-sequence b [] b'K' d refl refl ∙ ap (with_display b fresh) e, g', at)

-- ===== src/Cga/Driver/OffScreen.antt =====
-- setCursorColumn does not check its column: CSI 0 G in the first row puts the cursor of the CGA
-- display at position 65535, where the next character has no cell.
use eggos.Base.{
  ℕ, ◌-◌, ◌*◌, ◌%◌, ◌^◌, ◌<◌, ◌≡◌, refl, ap, ◌∙◌, inl, inr, true, false, List, ◌∷◌, ◌||◌, ◌==◌,
  Bool-cases, ok, panic, arith,
}
use eggos.Base.Words.{word, add32, sub32, int_div, int_div-eq-div}
use eggos.Cga.Ansi.{esc_byte}
use eggos.Cga.Ansi.Parse.{fresh, all, is_plain, sequence, join, all-join}
use eggos.Cga.Crt.{Crt, crt_backend, get_pos, set_pos, put, settle, scroll, store}
use eggos.Cga.Crt
use eggos.Cga.Driver.{
  atoi, set_cursor_column, write_csi, with_display, act, write_normal, write_spaces, write_byte,
  write_string,
}
use eggos.Cga.Driver.Laws.{driver, write_string-sequence}
use eggos.Cga.Driver.Commands.{step-text, params-join}

-- The display whose cursor registers are both 255.
abbrev stray : Crt → Crt
stray c = record c { high = 255; low = 255 }

stray_column : (c : Crt) → get_pos c < 80 → set_cursor_column crt_backend c 0 ≡ ok (stray c)
unfolding set_cursor_column set_pos
stray_column c h = ap (λ n. ok (set_pos c n)) target
  where
    target : sub32 (add32 (int_div (get_pos c) 80 * 80 % word) 0) 1 ≡ 2 ^ 32 - 1
    target = rw (int_div-eq-div (get_pos c) 80 (omega arith)) (omega arith)

stray_panics : (c : Crt) (ch : ℕ) → Crt.write_byte (stray c) ch ≡ panic
unfolding Crt.write_byte put settle scroll store get_pos
stray_panics c ch = elim (Bool-cases (ch == 0x0a)) [
  | inl line ↦ rw line
  | inr other ↦ elim (Bool-cases (ch == 0x08 || ch == 0x7f)) [
    | inl back ↦ rw (other, back)
    | inr plain ↦ rw (other, plain)
  ]
]

stray_normal : (c : Crt) (ch : ℕ) → write_normal crt_backend (stray c) ch ≡ panic
unfolding write_normal write_spaces
stray_normal c ch = ground (arith, stray_panics c ch, stray_panics c 0x20, stray_panics c b'?')

-- On the CGA display with the cursor in the first row, CSI p ; … G with the column p read as 0 is
-- accepted, and after it every byte that does not start an escape sequence panics.
pub csi_column_zero :
    (x : ℕ) (p : List ℕ) (qs : List (List ℕ)) (c : Crt) (ch : ℕ)
    → get_pos c < 80
    → all is_plain (x ∷ p) ≡ true
    → all (all is_plain) qs ≡ true
    → atoi (x ∷ p) ≡ 0
    → (ch == esc_byte) ≡ false
    → (t : Crt) × (write_string crt_backend
          (driver crt_backend fresh c)
          (sequence (join (x ∷ p) qs) b'G')
        ≡ ok (driver crt_backend fresh t))
      × (write_byte crt_backend (driver crt_backend fresh t) ch ≡ panic)
unfolding write_csi write_byte act
csi_column_zero x p qs c ch row h k zeroth plain = (
  stray c,
  write_string-sequence crt_backend (join (x ∷ p) qs) b'G' c (all-join (x ∷ p) qs h k) refl
      ∙ (ap (λ ps. with_display crt_backend fresh (write_csi crt_backend c b'G' ps))
            (params-join x p qs b'G' h k)
          ∙ (ap (λ n. with_display crt_backend fresh (set_cursor_column crt_backend c n)) zeroth
              ∙ ap (with_display crt_backend fresh) (stray_column c row))),
  rw (step-text ch plain, stray_normal c ch),
)

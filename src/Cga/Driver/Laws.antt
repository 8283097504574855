-- ===== src/Cga/Driver/Laws.antt =====
-- What the driver does over a display that keeps its cursor on the screen.
use eggos.Base.{
  ℕ, zero, suc, ◌+◌, ◌-◌, ◌*◌, ◌/◌, ◌%◌, ◌≤◌, ◌≡◌, refl, sym, ap, append-nil, append_assoc, ◌∙◌,
  inl, inr, ◌⊎◌, true, List, [], ◌∷◌, ◌++◌, ◌&&◌, ◌||◌, leb, ◌==◌, Bool-cases, Result, ok, ◌>>=◌,
  >>=-ok, arith,
}
use eggos.Base.Words.{word, add32, sub32, int_div, int_div-eq-div}
use eggos.Cga.Ansi.{State, left, param, Parser, is_param, is_final, step, reset}
use eggos.Cga.Ansi.Parse.{
  fresh, all, sequence, parsed, action-parsed, collecting, step-param_byte, step-final_byte,
}
use eggos.Cga.Backend.{Backend, IsSound, cell_count}
use eggos.Cga.Driver.{
  Driver, set_cursor_column, erase_from, line_end, erase_line, write_csi, write_spaces,
  write_normal, with_display, act, write_byte, write_string,
}

module _ (b : Backend) where
  open b use {Display}

  abbrev pub driver : Parser → Display → Driver b
  driver p d = record { parser = p; display = d }

  write_byte-param :
      (s : State) (a c : ℕ) (buf : List ℕ) (d : Display)
      → (s ≡ left) ⊎ (s ≡ param)
      → is_param c ≡ true
      → write_byte b (driver (collecting s a buf) d) c
        ≡ ok (driver (collecting param a (buf ++ (c ∷ []))) d)
  unfolding write_byte act
  write_byte-param s a c buf d h k = ap (act b d c) (step-param_byte s a c buf h k)

  write_byte-final :
      (s : State) (a f : ℕ) (buf : List ℕ) (d : Display)
      → (s ≡ left) ⊎ (s ≡ param)
      → is_final f ≡ true
      → write_byte b (driver (collecting s a buf) d) f
        ≡ with_display b fresh (write_csi b d f (parsed buf f).params)
  unfolding write_byte act reset
  write_byte-final s a f buf d h l =
      ap (act b d f) (step-final_byte s a f buf h l)
      ∙ ap (λ x. with_display b fresh (write_csi b d x (parsed buf f).params)) (action-parsed buf f)

  write_param :
      (s : State) (bs : List ℕ) (a f : ℕ) (buf : List ℕ) (d : Display)
      → (s ≡ left) ⊎ (s ≡ param)
      → all is_param bs ≡ true
      → is_final f ≡ true
      → write_string b (driver (collecting s a buf) d) (bs ++ (f ∷ []))
        ≡ with_display b fresh (write_csi b d f (parsed (buf ++ bs) f).params)
  unfolding write_string
  write_param s [] a f buf d h k l =
      >>=-ok _
      ∙ (write_byte-final s a f buf d h l
          ∙ ap (λ x. with_display b fresh (write_csi b d f (parsed x f).params))
              (sym (append-nil buf)))
  write_param s (c ∷ bs) a f buf d h k l = rw (write_byte-param s a c buf d h (ground arith)) (
      write_param param bs a f (buf ++ (c ∷ [])) d (inr refl) (ground arith) l
      ∙ ap (λ x. with_display b fresh (write_csi b d f (parsed x f).params))
          (append_assoc buf (c ∷ []) bs))

  -- A complete escape sequence runs its command on the display and leaves a reset parser.
  pub write_string-sequence :
      (body : List ℕ) (f : ℕ) (d : Display)
      → all is_param body ≡ true
      → is_final f ≡ true
      → write_string b (driver fresh d) (sequence body f)
        ≡ with_display b fresh (write_csi b d f (parsed body f).params)
  unfolding write_string write_byte act step
  write_string-sequence body f d k l = write_param left body 0 f [] d (inl refl) k l

module _ (b : Backend) (sound : IsSound b) where
  open b use {Display, get_pos}
  open sound use {IsGood, pos_in, set_pos_ok, write_pos_ok, write_byte_ok}

  -- A call that returns, on a good display.
  abbrev pub Returns : Result Display → Type 0
  Returns r = (t : Display) × (r ≡ ok t) × IsGood t

  Returns-bind :
      (r : Result Display) (f : Display → Result Display)
      → Returns r
      → ((t : Display) → IsGood t → Returns (f t))
      → Returns (r >>= f)
  Returns-bind r f (t, e, g) next = let (u, e', g') = next t g in (u, rw e e', g')

  write_spaces-Returns : (n : ℕ) (d : Display) → IsGood d → Returns (write_spaces b n d)
  unfolding write_spaces
  write_spaces-Returns zero d g = (d, refl, g)
  write_spaces-Returns (suc n) d g =
      Returns-bind _ _ (write_byte_ok d 0x20 g) (write_spaces-Returns n)

  -- A character outside an escape sequence never panics.
  pub write_normal-Returns : (d : Display) (ch : ℕ) → IsGood d → Returns (write_normal b d ch)
  unfolding write_normal
  write_normal-Returns d ch g = elim (Bool-cases (ch == 0x0a || (ch == 0x0d || ch == 0x08))) [
    | inl line ↦ rw line (write_byte_ok d ch g)
    | inr other ↦ elim (Bool-cases (ch == 0x09)) [
      | inl tab ↦ rw (other, tab) (write_spaces-Returns 4 d g)
      | inr plain ↦ elim (Bool-cases (leb 32 ch && leb ch 127)) [
        | inl shown ↦ rw (other, plain, shown) (write_byte_ok d ch g)
        | inr hidden ↦ rw (other, plain, hidden) (write_byte_ok d b'?' g)
      ]
    ]
  ]

  -- Blanking stays within the row and does not move the cursor.
  erase_from-Returns :
      (n i : ℕ) (d : Display)
      → IsGood d
      → i + n ≤ cell_count
      → (t : Display) × (erase_from b n i d ≡ ok t) × IsGood t × (get_pos t ≡ get_pos d)
  unfolding erase_from
  erase_from-Returns zero i d g h = (d, refl, g, refl)
  erase_from-Returns (suc n) i d g h =
      let (t, e, g', p) = write_pos_ok d i 0x20 g (omega arith) in
      let (u, e', g'', p') = erase_from-Returns n (add32 i 1) t g' (omega arith) in
      (u, rw e e', g'', p' ∙ p)

  -- CSI n G with 1 ≤ n ≤ 80 moves the cursor to that column of its row, counted from 1.
  pub set_cursor_column_lem :
      (d : Display) (n : ℕ)
      → IsGood d
      → 1 ≤ n
      → n ≤ 80
      → (t : Display) × (set_cursor_column b d n ≡ ok t)
        × IsGood t
        × (get_pos t ≡ get_pos d / 80 * 80 + (n - 1))
  unfolding set_cursor_column
  set_cursor_column_lem d n g lo hi =
      let h = pos_in d g in
      let target : sub32 (add32 (int_div (get_pos d) 80 * 80 % word) n) 1
          ≡ get_pos d / 80 * 80 + (n - 1) =
        rw (int_div-eq-div (get_pos d) 80 (omega arith)) (omega arith) in
      rw (target, set_cursor_column) (set_pos_ok d (get_pos d / 80 * 80 + (n - 1)) g (omega arith))

  pub erase_line_lem :
      (d : Display)
      → IsGood d
      → (t : Display) × (erase_line b d 0 ≡ ok t) × IsGood t × (get_pos t ≡ get_pos d)
  unfolding erase_line
  erase_line_lem d g =
      let h = pos_in d g in
      let end : line_end b (get_pos d) ≡ (get_pos d / 80 + 1) * 80 =
        rw (int_div-eq-div (get_pos d) 80 (omega arith)) (omega arith) in
      rw (end, erase_line)
        (erase_from-Returns (sub32 ((get_pos d / 80 + 1) * 80) (get_pos d)) (get_pos d) d g
          (omega arith))

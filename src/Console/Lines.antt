-- ===== src/Console/Lines.antt =====
-- A line typed at an idle console reaches the reader whole, and an arrow key panics the kernel.
use eggos.Base.{
  ℕ, zero, suc, ◌+◌, ◌-◌, ◌≤◌, ◌<◌, ◌≡◌, ◌≢◌, refl, sym, subst, ap, ap₂, ◌∙◌, Bool, true, false,
  none, List, [], ◌∷◌, ◌++◌, ◌&&◌, not, ◌==◌, length, length-append, ok, panic, ◌>>=◌, append_assoc,
  append-nil, arith,
}
use eggos.Base.Words.{word}
use eggos.Cga.Ansi.{is_final}
use eggos.Cga.Ansi.Parse.{fresh, sequence}
use eggos.Cga.Backend.{Backend, IsSound}
use eggos.Cga.Driver.Laws.{driver}
use eggos.Cga.Driver.Commands.{no_esc, write_string_text, csi_unsupported}
use eggos.Console.{
  con_buflen, Line, Output, Console, rawmode, append_byte, commit_line, feed_input, returned,
}
use eggos.Console
use eggos.Console.Ring
use eggos.Console.Ring.{IsValid, contents, size-contents}
use eggos.Console.Refine.{commit_line-Stands}
use eggos.Console.Reader.{outcome, read_refines}
use eggos.Console.Spec
use eggos.Console.Spec.{Discipline}
use eggos.Console.Typing.{
  is_typed, all_typed, store_all, not_full, Next-typed, after, feed_input-typed,
}

-- Bytes of a line: stored as they are, none of them a new line.
abbrev pub is_text : List ℕ → Bool
is_text [] = true
is_text (ch ∷ bs) = is_typed ch && (not (ch == 0x0a) && is_text bs)

abbrev typing : Discipline → List ℕ → Discipline
typing d bs = record d { pending = d.pending ++ bs }

-- Text that fits is kept in the line under edit.
record Typed (c : Line) (bs : List ℕ) (c' : Line) : Type 0 where
  valid : IsValid c'
  holds : contents c' ≡ typing (contents c) bs
  at : c'.e ≡ c.e + length bs
  from : c'.r ≡ c.r
  mode : rawmode c' ≡ rawmode c

end_line-text :
    (d : Discipline) (ch : ℕ)
    → (ch == 0x0a) ≡ false
    → Spec.size d + 1 < con_buflen
    → Spec.end_line (Spec.type_byte d ch) ch ≡ Spec.type_byte d ch
end_line-text d ch h k =
    let open_still : (Spec.size (Spec.type_byte d ch) == con_buflen) ≡ false =
      ground (arith, length-append d.pending (ch ∷ [])) in
    rw (h, open_still)

store_all-Typed :
    (bs : List ℕ) (c : Line)
    → IsValid c
    → is_text bs ≡ true
    → c.e + length bs < c.r + con_buflen
    → c.e + length bs < word
    → Typed c bs (store_all c bs)
store_all-Typed [] c v t room small = record {
  valid = v;
  holds =
      ap (λ x. record { ready = (contents c).ready; pending = x })
        (sym (append-nil (contents c).pending));
  at = omega arith;
  from = refl;
  mode = refl;
}
store_all-Typed (ch ∷ bs) c v t room small =
    let step = Next-typed c ch (length bs) v (omega arith) small in
    let free = not_full c ch (length bs) v (omega arith) small in
    let stands = commit_line-Stands c ch v (omega arith) free in
    let rest =
      store_all-Typed bs (commit_line (append_byte c ch) ch) step.valid (ground arith)
        (omega (arith, step.at, step.from)) (omega (arith, step.at)) in
    record {
      valid = rest.valid;
      holds =
          rest.holds
          ∙ (ap (λ d. typing d bs)
                (stands.holds
                  ∙ end_line-text (contents c) ch (ground arith)
                      (omega (arith, size-contents c v, v.read_le, v.write_le)))
              ∙ ap (λ x. record { ready = (contents c).ready; pending = x })
                  (append_assoc (contents c).pending (ch ∷ []) bs));
      at = omega (arith, rest.at, step.at);
      from = rest.from ∙ step.from;
      mode = rest.mode ∙ step.mode;
    }

store_all-append :
    (xs ys : List ℕ) (c : Line) → store_all c (xs ++ ys) ≡ store_all (store_all c xs) ys
store_all-append [] ys c = refl
store_all-append (x ∷ xs) ys c = store_all-append xs ys (commit_line (append_byte c x) x)

-- An idle console in canonical mode: nothing typed, nothing to read.
pub record IsIdle (c : Line) : Type 0 where
  pub valid : IsValid c
  pub canonical : rawmode c ≡ false
  pub drained : c.e ≡ c.r

idle-contents : (c : Line) → IsIdle c → contents c ≡ record { ready = []; pending = [] }
idle-contents c i =
    ap₂ (λ m n. record { ready = Ring.window c.buf c.r m; pending = Ring.window c.buf c.w n })
      none_ready none_typed
  where
    none_ready : c.w - c.r ≡ 0
    none_ready = omega (arith, i.drained, i.valid.write_le)

    none_typed : c.e - c.w ≡ 0
    none_typed = omega (arith, i.drained, i.valid.read_le)

-- A line whose readable bytes are `bytes`, in canonical mode.
abbrev Offers : List ℕ → Line → Type 0
Offers bytes c = IsValid c × (rawmode c ≡ false) × ((contents c).ready ≡ bytes)

-- A text and its new line can be read.
line-Offers :
    (xs : List ℕ) (c : Line)
    → IsIdle c
    → is_text xs ≡ true
    → length xs + 1 < con_buflen
    → c.e + length xs + 1 < word
    → Offers (xs ++ (0x0a ∷ [])) (store_all c (xs ++ (0x0a ∷ [])))
line-Offers xs c i t fits small =
    let s = store_all-Typed xs c i.valid t (omega (arith, i.drained)) (omega arith) in
    let c₁ = store_all c xs in
    let room : c₁.e + 1 ≤ c₁.r + con_buflen = omega (arith, s.at, s.from, i.drained) in
    let below : c₁.e + 1 < word = omega (arith, s.at) in
    let free = not_full c₁ 0x0a 0 s.valid room below in
    let last = Next-typed c₁ 0x0a 0 s.valid room below in
    let stands = commit_line-Stands c₁ 0x0a s.valid below free in
    subst (Offers (xs ++ (0x0a ∷ []))) (sym (store_all-append xs (0x0a ∷ []) c)) (
      last.valid,
      last.mode ∙ (s.mode ∙ i.canonical),
      ap Discipline.ready (
          stands.holds
          ∙ ap (λ d. Spec.end_line (Spec.type_byte d 0x0a) 0x0a)
              (s.holds ∙ ap (λ d. typing d xs) (idle-contents c i))),
    )

read_line :
    (xs : List ℕ) (n : ℕ)
    → is_text xs ≡ true
    → length xs < n
    → Spec.read false n (xs ++ (0x0a ∷ [])) ≡ (xs ++ (0x0a ∷ []), [], none)
unfolding Spec.read
read_line xs zero t h = absurd (omega arith)
read_line [] (suc n) t h = refl
read_line (x ∷ xs) (suc n) t h = ground (arith, read_line xs n)

reads_line :
    (xs : List ℕ) (n : ℕ) (c : Line)
    → Offers (xs ++ (0x0a ∷ [])) c
    → is_text xs ≡ true
    → length xs < n
    → (c' : Line) × (Console.read n c ≡ returned (xs ++ (0x0a ∷ [])) c')
reads_line xs n c (v, mode, ready) t h =
    let got : Spec.read (rawmode c) n (contents c).ready ≡ (xs ++ (0x0a ∷ []), [], none) =
      ap₂ (λ m q. Spec.read m n q) mode ready ∙ read_line xs n t h in
    let (c', _, _, _, e) = read_refines n c v in (c', e ∙ ap (λ t. outcome t.0 t.2 c') got)

all_typed-line : (xs : List ℕ) → is_text xs ≡ true → all_typed (xs ++ (0x0a ∷ [])) ≡ true
all_typed-line [] t = refl
all_typed-line (x ∷ xs) t = ground (arith, all_typed-line xs)

no_esc-line : (xs : List ℕ) → no_esc xs ≡ true → no_esc (xs ++ (0x0a ∷ [])) ≡ true
no_esc-line [] t = refl
no_esc-line (x ∷ xs) t = ground (arith, no_esc-line xs)

module _ (b : Backend) where
  open b use {Display}

  abbrev output : List ℕ → Display → Output b
  output sent d = record { serial = sent; screen = driver b fresh d }

  -- A line of text typed at an idle console in canonical mode, shorter than the buffer and without
  -- erase and escape bytes, is echoed to the serial line byte by byte and returned whole, its new
  -- line included, by a read with enough room. (The cursor is on the screen, and fewer than
  -- 2 ^ 32 - 1 bytes have been typed.)
  pub typed_line :
      (sound : IsSound b) (xs : List ℕ) (n : ℕ) (c : Line) (sent : List ℕ) (d : Display)
      → IsIdle c
      → sound.IsGood d
      → is_text xs ≡ true
      → no_esc xs ≡ true
      → length xs + 1 < con_buflen
      → c.e + length xs + 1 < word
      → length xs < n
      → (c' : Line) × (t : Display) × (c'' : Line) × (feed_input b
            (c, output sent d)
            (xs ++ (0x0a ∷ []))
          ≡ ok (c', output (sent ++ (xs ++ (0x0a ∷ []))) t))
        × (Console.read n c' ≡ returned (xs ++ (0x0a ∷ [])) c'')
  typed_line sound xs n c sent d i g t plain fits small room =
      let line = xs ++ (0x0a ∷ []) in
      let size = length-append xs (0x0a ∷ []) in
      let (c'', r) = reads_line xs n (store_all c line) (line-Offers xs c i t fits small) t room in
      let (u, e, _) = write_string_text b sound line d g (no_esc-line xs plain) in
      let fed =
        feed_input-typed b line c (output sent d) i.valid i.canonical
          (omega (arith, size, i.drained)) (omega (arith, size)) (all_typed-line xs t) in
      (store_all c line, u, c'', fed ∙ ap (λ s. s >>= after b c (output sent d) line) e, r)

  -- Any escape sequence with a final byte other than G and K, such as those of the arrow keys,
  -- panics the kernel when its bytes arrive at a console in canonical mode that has room for them:
  -- the echo runs it on the screen.
  pub escape_input_panics :
      (f : ℕ) (c : Line) (sent : List ℕ) (d : Display)
      → IsValid c
      → rawmode c ≡ false
      → c.e + 3 ≤ c.r + con_buflen
      → c.e + 3 < word
      → is_final f ≡ true
      → is_typed f ≡ true
      → f ≢ b'G'
      → f ≢ b'K'
      → feed_input b (c, output sent d) (sequence [] f) ≡ panic
  escape_input_panics f c sent d v mode room small fin t g k =
      feed_input-typed b (sequence [] f) c (output sent d) v mode room small (ground arith)
      ∙ ap (λ s. s >>= after b c (output sent d) (sequence [] f))
          (csi_unsupported b [] f d refl fin g k)

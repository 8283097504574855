-- ===== src/Console/Typing.antt =====
-- A line typed at the console, from the keyboard's bytes to the reader, with its echo.
use eggos.Base.{
  ℕ, suc, ◌+◌, ◌≤◌, ◌<◌, ◌≡◌, refl, sym, ap, ◌∙◌, Bool, true, false, List, [], ◌∷◌, ◌++◌, ◌&&◌, not,
  ◌==◌, lt→leb, length, Result, ok, panic, ◌>>=◌, append_assoc, append-nil, arith,
}
use mathlib.Core.Path.{fun_ext}
use eggos.Base.Words.{word, sub32}
use eggos.Cga.Backend.{Backend}
use eggos.Cga.Driver.{Driver, write_string}
use eggos.Cga.Driver as Cga
use eggos.Console.{
  con_buflen, Line, Output, Console, rawmode, is_full, append_byte, cooked, is_erase, commit_line,
  putc, store_byte, handle_canonical, handle_input, feed_input,
}
use eggos.Console.Ring.{IsValid}
use eggos.Console.Refine.{commit_line-Stands}

-- A byte that the line discipline stores as it is.
abbrev pub is_typed : ℕ → Bool
is_typed ch = not (is_erase ch) && not (ch == 0x0d)

abbrev pub all_typed : List ℕ → Bool
all_typed [] = true
all_typed (ch ∷ bs) = is_typed ch && all_typed bs

-- The line after the bytes are stored.
abbrev pub store_all : Line → List ℕ → Line
store_all c [] = c
store_all c (ch ∷ bs) = store_all (commit_line (append_byte c ch) ch) bs

-- What a typed byte leaves: the indices and the settings that the next byte depends on.
pub record Next (c : Line) (ch : ℕ) : Type 0 where
  pub valid : IsValid (commit_line (append_byte c ch) ch)
  pub at : (commit_line (append_byte c ch) ch).e ≡ c.e + 1
  pub from : (commit_line (append_byte c ch) ch).r ≡ c.r
  pub mode : rawmode (commit_line (append_byte c ch) ch) ≡ rawmode c

module _ (c : Line) (ch n : ℕ) (v : IsValid c) (room : c.e + suc n ≤ c.r + con_buflen)
    (small : c.e + suc n < word) where
  pub not_full : is_full c ≡ false
  not_full = lt→leb con_buflen (sub32 c.e c.r) (omega (arith, v.read_le, v.write_le))

  pub Next-typed : Next c ch
  unfolding rawmode
  Next-typed = record {
    valid = (commit_line-Stands c ch v (omega arith) not_full).valid;
    at = ground arith;
    from = ground arith;
    mode = ground arith;
  }

handle_input-typed :
    (b : Backend) (c : Line) (o : Output b) (ch : ℕ)
    → rawmode c ≡ false
    → is_full c ≡ false
    → is_typed ch ≡ true
    → handle_input b (c, o) ch ≡ (putc b o ch >>= λ o'. ok (commit_line (append_byte c ch) ch, o'))
unfolding handle_input handle_canonical store_byte
handle_input-typed b c o ch mode free t =
    let types : is_erase ch ≡ false = ground arith in
    let same : cooked ch ≡ ch = ground arith in rw (mode, types, free, same)

module _ (b : Backend) where
  -- The console after `bs`, with the screen `s`.
  abbrev pub after : Line → Output b → List ℕ → Driver b → Result (Console b)
  after c o bs s = ok (store_all c bs, record { serial = o.serial ++ bs; screen = s })

  -- Typed bytes are stored, and go to the screen and to the serial line.
  pub feed_input-typed :
      (bs : List ℕ) (c : Line) (o : Output b)
      → IsValid c
      → rawmode c ≡ false
      → c.e + length bs ≤ c.r + con_buflen
      → c.e + length bs < word
      → all_typed bs ≡ true
      → feed_input b (c, o) bs ≡ (write_string b o.screen bs >>= after c o bs)
  unfolding feed_input write_string putc
  feed_input-typed [] c o v mode room small t =
      ap (λ x. ok (c, record { serial = x; screen = o.screen })) (sym (append-nil o.serial))
  feed_input-typed (ch ∷ bs) c o v mode room small t =
      rw (handle_input-typed b c o ch mode (not_full c ch (length bs) v room small) (ground arith))
        (go
          (λ s.
            feed_input-typed bs rest (next_out s) step.valid (step.mode ∙ mode)
              (omega (arith, step.at, step.from)) (omega (arith, step.at)) (ground arith))
          (Cga.write_byte b o.screen ch))
    where
      step : Next c ch
      step = Next-typed c ch (length bs) v room small

      next_out : Driver b → Output b
      next_out s = record { serial = o.serial ++ (ch ∷ []); screen = s }

      rest : Line
      rest = commit_line (append_byte c ch) ch

      go :
          ((s : Driver b)
            → feed_input b (rest, next_out s) bs
              ≡ (write_string b s bs >>= after rest (next_out s) bs))
          → (r : Result (Driver b))
          → (((r >>= λ s. ok (next_out s)) >>= λ o'. ok (rest, o')) >>= (λ s'. feed_input b s' bs))
            ≡ ((r >>= λ s. write_string b s bs) >>= after c o (ch ∷ bs))
      go ih panic = refl
      go ih (ok s) =
          ih s
          ∙ ap (λ f. write_string b s bs >>= f)
              (fun_ext λ u.
                ap (λ x. ok (store_all rest bs, record { serial = x; screen = u }))
                  (append_assoc o.serial (ch ∷ []) bs))

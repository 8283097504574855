-- ===== src/Console/Refine.antt =====
-- The console behaves as its specification says, on input and on reading.
use eggos.Base.{
  ℕ, zero, suc, ◌+◌, ◌-◌, ◌<◌, ◌≡◌, refl, sym, ap, ◌∙◌, inl, inr, Bool, true, false, Option, none,
  some, List, [], ◌∷◌, ◌||◌, leb, ltb, ◌==◌, if◌then◌else◌, Bool-cases, length-append, Result, ok,
  ◌>>=◌, arith,
}
use eggos.Base.Words.{word, add32, sub32}
use eggos.Cga.Backend.{Backend}
use eggos.Console.{
  con_buflen, Line, Output, Console, rawmode, is_full, append_byte, handle_raw, cooked, is_erase,
  commit_line, putc, erase_last, store_byte, handle_canonical, handle_input,
}
use eggos.Console.Ring.{
  window, length-window, IsValid, contents, append_byte-IsValid, contents-append_byte,
  commit-IsValid, contents-commit, size-contents, contents_back, back-IsValid,
}
use eggos.Console.Spec
use eggos.Console.Spec.{Discipline}

module _ (c : Line) (v : IsValid c) where
  pub full-size : is_full c ≡ leb con_buflen (Spec.size (contents c))
  full-size =
      ap (leb con_buflen) (omega (arith, size-contents c v, v.read_le, v.write_le, v.no_wrap))

  pub free-room : is_full c ≡ false → c.e < c.r + con_buflen
  free-room h = ground (arith, v.read_le, v.write_le, v.no_wrap)

-- A line after an input: valid, standing for the given bytes, with its settings.
pub record Stands (c : Line) (d : Discipline) (c' : Line) : Type 0 where
  pub valid : IsValid c'
  pub holds : contents c' ≡ d
  pub same_tios : c'.tios ≡ c.tios

handle_raw-Stands :
    (c : Line) (ch : ℕ)
    → IsValid c
    → c.e + 1 < word
    → Stands c (Spec.input true (contents c) ch) (handle_raw c ch)
unfolding handle_raw Spec.input
handle_raw-Stands c ch v h = elim (Bool-cases (is_full c)) [
  | inl full ↦
      rw (full, sym (full-size c v) ∙ full) (record { valid = v; holds = refl; same_tios = refl })
  | inr free ↦
      let v' = append_byte-IsValid c v ch (free-room c v free) h in
      rw (free, sym (full-size c v) ∙ free)
        (record {
          valid = commit-IsValid (append_byte c ch) v';
          holds =
              contents-commit (append_byte c ch) v'
              ∙ ap Spec.flush (contents-append_byte c v ch (free-room c v free) h);
          same_tios = refl;
        })
]

-- The same test on both sides.
if-Stands :
    (c : Line) (p q : Bool) {d d' : Discipline} {l l' : Line}
    → p ≡ q
    → Stands c d l
    → Stands c d' l'
    → Stands c (if p then d else d') (if q then l else l')
if-Stands c true true e s s' = s
if-Stands c false false e s s' = s'
if-Stands c true false e s s' = absurd (ground arith)
if-Stands c false true e s s' = absurd (ground arith)

typed_test :
    (c : Line) (ch : ℕ)
    → IsValid c
    → c.e + 1 < word
    → is_full c ≡ false
    → (Spec.size (Spec.type_byte (contents c) ch) == con_buflen)
      ≡ ((append_byte c ch).e == add32 c.r con_buflen)
typed_test c ch v h free =
    let held : Spec.size (Spec.type_byte (contents c) ch) ≡ c.e + 1 - c.r = omega (
      arith,
      length-window c.buf c.r (c.w - c.r),
      length-append (window c.buf c.w (c.e - c.w)) (ch ∷ []),
      length-window c.buf c.w (c.e - c.w),
      v.read_le,
      v.write_le,
    ) in
    rw held (ground (arith, v.read_le, v.write_le, free-room c v free))

pub commit_line-Stands :
    (c : Line) (ch : ℕ)
    → IsValid c
    → c.e + 1 < word
    → is_full c ≡ false
    → Stands c
        (Spec.end_line (Spec.type_byte (contents c) ch) ch)
        (commit_line (append_byte c ch) ch)
commit_line-Stands c ch v h free =
    let v' = append_byte-IsValid c v ch (free-room c v free) h in
    let typed = contents-append_byte c v ch (free-room c v free) h in
    if-Stands c _ _ (ap (λ t. ch == 0x0a || t) (typed_test c ch v h free))
      (record {
        valid = commit-IsValid (append_byte c ch) v';
        holds = contents-commit (append_byte c ch) v' ∙ ap Spec.flush typed;
        same_tios = refl;
      })
      (record { valid = v'; holds = typed; same_tios = refl })

-- The bytes that the specification echoes, sent through putc.
abbrev pub send : (b : Backend) → Option ℕ → Output b → Result (Output b)
send b none o = ok o
send b (some ch) o = putc b o ch

is_empty-window :
    (c : Line)
    → IsValid c
    → Spec.is_empty (contents c).pending ≡ (if ltb c.w c.e then false else true)
is_empty-window c v = go (c.e - c.w) refl
  where
    go :
        (n : ℕ)
        → c.e - c.w ≡ n
        → Spec.is_empty (window c.buf c.w n) ≡ (if ltb c.w c.e then false else true)
    go zero h = ground (arith, v.write_le)
    go (suc n) h = ground (arith, v.write_le)

drop_last-empty : (xs : List ℕ) → Spec.is_empty xs ≡ true → Spec.drop_last xs ≡ xs
drop_last-empty [] h = refl
drop_last-empty (x ∷ xs) h = cc

-- How `handle_input` meets its specification, in the mode `raw`.
abbrev pub Refines : (b : Backend) → Line → Output b → ℕ → Bool → Result (Console b) → Type 0
Refines b c o ch raw r =
    (c' : Line) × IsValid c'
    × (contents c' ≡ Spec.input raw (contents c) ch)
    × (c'.tios ≡ c.tios)
    × (r ≡ (send b (Spec.echo raw (contents c) ch) o >>= λ o'. ok (c', o')))

module _ (b : Backend) (c : Line) (o : Output b) (ch : ℕ) (v : IsValid c) where
  erase-Refines : is_erase ch ≡ true → Refines b c o ch false (handle_canonical b (c, o) ch)
  unfolding handle_canonical erase_last Spec.input Spec.echo
  erase-Refines erases = elim (Bool-cases (ltb c.w c.e)) [
    | inl left ↦
        let full : Spec.is_empty (contents c).pending ≡ false =
          is_empty-window c v ∙ ground arith in
        (
          record c { e = sub32 c.e 1 },
          back-IsValid c v (ground arith),
          rw erases (contents_back c v (ground arith)),
          refl,
          rw (erases, left, full),
        )
    | inr none_left ↦
        let empty : Spec.is_empty (contents c).pending ≡ true =
          is_empty-window c v ∙ ground arith in
        (
          c,
          v,
          rw erases (
              ap (λ y. record { ready = (contents c).ready; pending = y })
                (sym (drop_last-empty (contents c).pending empty))),
          refl,
          rw (erases, none_left, empty),
        )
  ]

  full-Refines :
      is_erase ch ≡ false → is_full c ≡ true → Refines b c o ch false (handle_canonical b (c, o) ch)
  unfolding handle_canonical Spec.input Spec.echo
  full-Refines types full =
      let full' : leb con_buflen (Spec.size (contents c)) ≡ true = sym (full-size c v) ∙ full in
      (c, v, rw (types, full'), refl, rw (types, full, full'))

  store-Refines :
      c.e + 1 < word
      → is_erase ch ≡ false
      → is_full c ≡ false
      → Refines b c o ch false (handle_canonical b (c, o) ch)
  unfolding handle_canonical store_byte Spec.input Spec.echo
  store-Refines h types free =
      let free' : leb con_buflen (Spec.size (contents c)) ≡ false = sym (full-size c v) ∙ free in
      let s = commit_line-Stands c (cooked ch) v h free in
      (
        commit_line (append_byte c (cooked ch)) (cooked ch),
        s.valid,
        rw (types, free') s.holds,
        s.same_tios,
        rw (types, free, free'),
      )

  canonical-Refines : c.e + 1 < word → Refines b c o ch false (handle_canonical b (c, o) ch)
  canonical-Refines h = elim (Bool-cases (is_erase ch)) [
    | inl erases ↦ erase-Refines erases
    | inr types ↦ elim (Bool-cases (is_full c)) [
      | inl full ↦ full-Refines types full
      | inr free ↦ store-Refines h types free
    ]
  ]

-- On every input byte, in both modes, a valid line goes to a valid line that stands for what the
-- specification says, keeps the settings, and sends out exactly the specification's echo; the
-- only way not to return is a panic of the screen on that echo. (Fewer than 2 ^ 32 - 1 bytes have
-- been typed.)
pub handle_input-Refines :
    (b : Backend) (c : Line) (o : Output b) (ch : ℕ)
    → IsValid c
    → c.e + 1 < word
    → Refines b c o ch (rawmode c) (handle_input b (c, o) ch)
unfolding handle_input Spec.echo
handle_input-Refines b c o ch v h = elim (Bool-cases (rawmode c)) [
  | inl raw ↦
      let s = handle_raw-Stands c ch v h in
      rw raw (handle_raw c ch, s.valid, s.holds, s.same_tios, refl)
  | inr canonical ↦ rw canonical (canonical-Refines b c o ch v h)
]

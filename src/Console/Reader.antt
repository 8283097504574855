-- ===== src/Console/Reader.antt =====
-- Reading from the console takes what the specification says.
use eggos.Base.{
  ℕ, zero, suc, ◌+◌, ◌-◌, ◌%◌, ◌<◌, ◌≡◌, refl, sym, subst, ap, ap₂, ◌∙◌, inl, inr, Bool, true,
  false, Option, none, some, List, [], ◌∷◌, ◌++◌, ◌||◌, ◌==◌, if◌then◌else◌, Bool-cases, get_or,
  append_assoc, append-nil, arith,
}
use eggos.Base.Words.{add32}
use eggos.Console.{con_buflen, Line, rawmode, Reading, returned, waiting, read_loop}
use eggos.Console
use eggos.Console.Ring.{window, IsValid, contents}
use eggos.Console.Spec
use eggos.Console.Spec.{Discipline}

-- What `read_loop` comes back with, given what the specification takes and leaves.
abbrev pub outcome : List ℕ → Option ℕ → Line → Reading
outcome got none c = returned got c
outcome got (some room) c = waiting got room c

-- A reading `r` of the line `c` whose readable bytes are `q`: it takes what the specification
-- takes, behind what it had got, and leaves the rest and the line under edit.
abbrev pub ReadsFrom : List ℕ → Bool → ℕ → List ℕ → Line → Reading → Type 0
ReadsFrom q raw n got c r =
    let (bytes, left, wait) = Spec.read raw n q in
    (c' : Line) × IsValid c'
    × (contents c' ≡ record { ready = left; pending = (contents c).pending })
    × (c'.tios ≡ c.tios)
    × (r ≡ outcome (got ++ bytes) wait c')

abbrev pub Reads : Bool → ℕ → List ℕ → Line → Reading → Type 0
Reads raw n got c = ReadsFrom (contents c).ready raw n got c

-- The line after the next byte is taken, and that byte.
abbrev rest : Line → Line
rest c = record c { r = add32 c.r 1 }

abbrev next : Line → ℕ
next c = get_or c.buf (c.r % con_buflen) 0

rest-rawmode : (c : Line) → rawmode (rest c) ≡ rawmode c
unfolding rawmode
rest-rawmode c = refl

module _ (c : Line) (v : IsValid c) (some_ready : c.r < c.w) where
  rest-IsValid : IsValid (rest c)
  rest-IsValid = record {
    length_buf = v.length_buf;
    read_le = omega (arith, v.write_le, v.no_wrap);
    write_le = v.write_le;
    room = omega (arith, v.room, v.no_wrap, v.write_le);
    no_wrap = v.no_wrap;
  }

  ready-rest : (contents c).ready ≡ next c ∷ (contents (rest c)).ready
  ready-rest =
      ap (window c.buf c.r) one_more ∙ ap (λ t. next c ∷ t) (ap₂ (window c.buf) start count)
    where
      one_more : c.w - c.r ≡ suc (c.w - c.r - 1)
      one_more = omega arith

      start : c.r + 1 ≡ add32 c.r 1
      start = omega (arith, v.write_le, v.no_wrap)

      count : c.w - c.r - 1 ≡ c.w - add32 c.r 1
      count = omega (arith, v.write_le, v.no_wrap)

ready-nil : (c : Line) → c.r ≡ c.w → (contents c).ready ≡ []
ready-nil c h = ap (window c.buf c.r) none_left
  where
    none_left : c.w - c.r ≡ 0
    none_left = omega arith

-- Behind a byte that does not end the read, the reading of the rest counts.
ReadsFrom-cons :
    (q : List ℕ) (raw : Bool) (n ch : ℕ) (got : List ℕ) (c c' : Line) (r : Reading)
    → (ch == 0x0a || raw) ≡ false
    → contents c' ≡ record { ready = q; pending = (contents c).pending }
    → c'.tios ≡ c.tios
    → ReadsFrom q raw n (got ++ (ch ∷ [])) c' r
    → ReadsFrom (ch ∷ q) raw (suc n) got c r
unfolding Spec.read
ReadsFrom-cons q raw n ch got c c' r goes_on same tios (d, v, holds, t, e) = rw goes_on (
  d,
  v,
  holds ∙ ap (λ x. record { ready = (Spec.read raw n q).1; pending = Discipline.pending x }) same,
  t ∙ tios,
  e
      ∙ ap (λ x. outcome x (Spec.read raw n q).2 d)
          (append_assoc got (ch ∷ []) (Spec.read raw n q).0),
)

ReadsFrom-last :
    (q : List ℕ) (raw : Bool) (n ch : ℕ) (got : List ℕ) (c c' : Line)
    → (ch == 0x0a || raw) ≡ true
    → IsValid c'
    → contents c' ≡ record { ready = q; pending = (contents c).pending }
    → c'.tios ≡ c.tios
    → ReadsFrom (ch ∷ q) raw (suc n) got c (returned (got ++ (ch ∷ [])) c')
unfolding Spec.read
ReadsFrom-last q raw n ch got c c' ends v same tios = rw ends (c', v, same, tios, refl)

read_loop_step :
    (n : ℕ) (got : List ℕ) (c : Line)
    → (c.r == c.w) ≡ false
    → read_loop (suc n) got c ≡ (
        if next c == 0x0a || rawmode c
        then returned (got ++ (next c ∷ [])) (rest c)
        else read_loop n (got ++ (next c ∷ [])) (rest c))
unfolding read_loop rawmode
read_loop_step n got c h = rw h

Reads-ready :
    (n : ℕ) (got : List ℕ) (c : Line) (v : IsValid c) (lt : c.r < c.w)
    → Reads
        (rawmode c)
        n
        (got ++ (next c ∷ []))
        (rest c)
        (read_loop n (got ++ (next c ∷ [])) (rest c))
    → Reads (rawmode c) (suc n) got c (read_loop (suc n) got c)
Reads-ready n got c v lt more =
    subst (λ q. ReadsFrom q (rawmode c) (suc n) got c (read_loop (suc n) got c))
      (sym (ready-rest c v lt))
      (subst (ReadsFrom (ready) (rawmode c) (suc n) got c)
        (sym (read_loop_step n got c (ground arith))) by_mode)
  where
    ready : List ℕ
    ready = next c ∷ (contents (rest c)).ready

    by_mode : ReadsFrom ready (rawmode c) (suc n) got c (
        if next c == 0x0a || rawmode c
        then returned (got ++ (next c ∷ [])) (rest c)
        else read_loop n (got ++ (next c ∷ [])) (rest c))
    by_mode = elim (Bool-cases (next c == 0x0a || rawmode c)) [
      | inl ends ↦ rw ends (
          ReadsFrom-last _ (rawmode c) n (next c) got c (rest c) ends (rest-IsValid c v lt) refl
            refl)
      | inr goes_on ↦
          rw goes_on
            (ReadsFrom-cons _ (rawmode c) n (next c) got c (rest c) _ goes_on refl refl more)
    ]

Reads-none :
    (n : ℕ) (got : List ℕ) (c : Line)
    → IsValid c
    → (c.r == c.w) ≡ true
    → Reads (rawmode c) (suc n) got c (read_loop (suc n) got c)
unfolding read_loop Spec.read
Reads-none n got c v none_ready =
    let e = ready-nil c (ground arith) in
    subst (λ q. ReadsFrom q (rawmode c) (suc n) got c (read_loop (suc n) got c)) (sym e)
      (
        c,
        v,
        ap (λ q. record { ready = q; pending = (contents c).pending }) e,
        refl,
        rw none_ready (ap (λ t. waiting t (suc n) c) (sym (append-nil got))),
      )

read_loop-Reads :
    (n : ℕ) (got : List ℕ) (c : Line) → IsValid c → Reads (rawmode c) n got c (read_loop n got c)
unfolding read_loop Spec.read
read_loop-Reads zero got c v = (c, v, refl, refl, ap (λ t. returned t c) (sym (append-nil got)))
read_loop-Reads (suc n) got c v = elim (Bool-cases (c.r == c.w)) [
  | inl none_ready ↦ Reads-none n got c v none_ready
  | inr some_ready ↦
      let lt : c.r < c.w = ground (arith, v.read_le) in
      Reads-ready n got c v lt (
        subst
          (λ m.
            Reads m n (got ++ (next c ∷ [])) (rest c) (read_loop n (got ++ (next c ∷ [])) (rest c)))
          (rest-rawmode c)
          (read_loop-Reads n (got ++ (next c ∷ [])) (rest c) (rest-IsValid c v lt)))
]

-- Reading from a valid line takes what the specification takes from the readable bytes, waits
-- exactly when the specification does and with the room that it says, and leaves a valid line with
-- the bytes that the specification leaves and the same line under edit.
pub read_refines : (n : ℕ) (c : Line) → IsValid c → Reads (rawmode c) n [] c (Console.read n c)
unfolding Console.read
read_refines n c v = read_loop-Reads n [] c v

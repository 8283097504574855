-- ===== src/Kbd/Safe.antt =====
-- No scan code makes the keyboard driver index a table out of its bounds.
use eggos.Base.{
  ℕ, ◌++◌, ◌∙◌, ap, sym, panic, some, ◌<◌, ◌≡◌, refl, inl, inr, Bool, true, false, List, [], ◌∷◌,
  ◌&&◌, bit_and, bit_or, ltb, ◌==◌, if◌then◌else◌, Bool-cases, lt→ltb, Result, ok, ◌>>=◌, arith,
}
use eggos.Base.Below.{all_below, of_all_below}
use eggos.Kbd.{
  Kbd, Interrupted, call_each, intr_loop, intr, emitted, e0esc, clear_bits, charcode, char_of,
  shift_up, shift_down, typed, set_pressed, swap_case, release_key, release, press, read_code,
  hand_on, Handled, read_codes,
}
use eggos.Kbd.Tables.{normalmap, shiftmap, ctlmap}

normal_table : all_below 256 (λ d. ltb (normalmap d) 255) ≡ true
unfolding all_below normalmap
normal_table = refl

shift_table : all_below 256 (λ d. ltb (shiftmap d) 255) ≡ true
unfolding all_below shiftmap
shift_table = refl

ctl_table : all_below 256 (λ d. ltb (ctlmap d) 255) ≡ true
unfolding all_below ctlmap
ctl_table = refl

low_table : all_below 256 (λ d. ltb (bit_and d 0x7f) 256 && ltb (bit_or d 0x80) 256) ≡ true
unfolding all_below
low_table = refl

charcode-lt : (i d : ℕ) → d < 256 → charcode i d < 255
unfolding charcode
charcode-lt i d h = ground (
  arith,
  of_all_below 256 (λ d. ltb (normalmap d) 255) d normal_table h,
  of_all_below 256 (λ d. ltb (shiftmap d) 255) d shift_table h,
  of_all_below 256 (λ d. ltb (ctlmap d) 255) d ctl_table h,
)

swap_case-lt : (c : ℕ) → c < 255 → swap_case c < 255
unfolding swap_case
swap_case-lt c h = ground arith

low-lt : (d : ℕ) → d < 256 → (bit_and d 0x7f < 256) × (bit_or d 0x80 < 256)
low-lt d h = ground (
  arith,
  of_all_below 256 (λ d. ltb (bit_and d 0x7f) 256 && ltb (bit_or d 0x80) 256) d low_table h,
)

char_of-lt : (shift d : ℕ) → d < 256 → char_of shift d < 255
unfolding char_of
char_of-lt shift d h = charcode-lt (bit_and shift 3) d h

typed-lt : (shift d : ℕ) → d < 256 → typed shift d < 255
unfolding typed
typed-lt shift d h =
    ground (arith, char_of-lt shift d h, swap_case-lt (char_of shift d) (char_of-lt shift d h))

abbrev Returns : {A : Type 0} → Result A → Type 0
Returns {A} r = (a : A) × (r ≡ ok a)

pub set_pressed-ok :
    (k : Kbd) (c : ℕ) (v : Bool)
    → c < 255
    → set_pressed k c v ≡ ok (record k { pressed = λ i. if i == c then v else k.pressed i })
unfolding set_pressed
set_pressed-ok k c v h = rw (lt→ltb c 255 h)

set_pressed-Returns : (k : Kbd) (c : ℕ) (v : Bool) → c < 255 → Returns (set_pressed k c v)
set_pressed-Returns k c v h =
    (record k { pressed = λ i. if i == c then v else k.pressed i }, set_pressed-ok k c v h)

Returns-map : {A B : Type 0} (r : Result A) (f : A → B) → Returns r → Returns (r >>= λ a. ok (f a))
Returns-map r f (a, e) = (f a, rw e)

release_key-Returns : (k : Kbd) (d : ℕ) → d < 256 → Returns (release_key k d)
unfolding release_key
release_key-Returns k d h =
    Returns-map _ _ (set_pressed-Returns _ _ false (char_of-lt (shift_up k.shift d) d h))

release-Returns : (k : Kbd) (code : ℕ) → code < 256 → Returns (release k code)
unfolding release
release-Returns k code h = elim (Bool-cases (bit_and k.shift e0esc == 0)) [
  | inl plain ↦ rw plain (release_key-Returns k (bit_and code 0x7f) (low-lt code h).0)
  | inr extended ↦ rw extended (release_key-Returns k code h)
]

press-Returns : (k : Kbd) (shift d : ℕ) → d < 256 → Returns (press k shift d)
unfolding press
press-Returns k shift d h =
    Returns-map _ _ (set_pressed-Returns _ _ true (typed-lt (shift_down shift d) d h))

read_code-Returns : (k : Kbd) (code : ℕ) → code < 256 → Returns (read_code k code)
unfolding read_code
read_code-Returns k code h = elim (Bool-cases (code == 0xe0)) [
  | inl prefix ↦ rw prefix (_, refl)
  | inr other ↦ elim (Bool-cases (bit_and code 0x80 == 0)) [
    | inr up ↦ rw (other, up) (release-Returns k code h)
    | inl down ↦ elim (Bool-cases (bit_and k.shift e0esc == 0)) [
      | inl plain ↦ rw (other, down, plain) (press-Returns k k.shift code h)
      | inr extended ↦
          rw (other, down, extended)
            (press-Returns k (clear_bits k.shift e0esc) (bit_or code 0x80) (low-lt code h).1)
    ]
  ]
]

-- Scan codes are bytes.
abbrev pub AreBytes : List ℕ → Type 0
AreBytes [] = Unit
AreBytes (c ∷ cs) = (c < 256) × AreBytes cs

-- Whatever keys and flags are set, no index into the character maps or into keyPressed is out of
-- range for a sequence of scan codes.
pub read_codes_total :
    (k : Kbd) (codes : List ℕ) → AreBytes codes → (h : Handled) × (read_codes k codes ≡ ok h)
unfolding read_codes
read_codes_total k [] h = (_, refl)
read_codes_total k (code ∷ codes) h =
    let (a, e) = read_code-Returns k code h.0 in
    let (rest, e') = read_codes_total a.0 codes h.1 in
    elim (Bool-cases (a.1 == 0)) [
      | inl none_left ↦ (record { kbd = a.0; bytes = []; unread = codes }, rw (e, none_left))
      | inr more ↦ (hand_on a.1 rest, rw (e, more, e'))
    ]

module _ {World : Type 0} where
  call_each-append :
      (callback : World → ℕ → Result World) (w : World) (xs ys : List ℕ)
      → call_each callback w (xs ++ ys) ≡ (call_each callback w xs >>= λ v. call_each callback v ys)
  unfolding call_each
  call_each-append callback w [] ys = refl
  call_each-append callback w (x ∷ xs) ys =
      behind (callback w x) (λ v. call_each-append callback v xs ys)
    where
      behind :
          (r : Result World)
          → ((v : World)
              → call_each callback v (xs ++ ys)
                ≡ (call_each callback v xs >>= λ u. call_each callback u ys))
          → (r >>= λ v. call_each callback v (xs ++ ys))
            ≡ ((r >>= λ v. call_each callback v xs) >>= λ u. call_each callback u ys)
      behind (ok v) ih = ih v
      behind panic ih = refl

  -- The codes of an interrupt, and what the callback does with their bytes.
  abbrev pub interrupted : (World → ℕ → Result World) → World → Handled → Result (Interrupted World)
  interrupted callback w h = call_each callback w h.bytes >>= λ v.
      ok (record { kbd = h.kbd; world = v; unread = h.unread; ended = true })

  interrupted-hand_on :
      (callback : World → ℕ → Result World) (w : World) (ch : ℕ) (h : Handled)
      → interrupted callback w (hand_on ch h)
        ≡ (call_each callback w (emitted ch) >>= λ v. interrupted callback v h)
  interrupted-hand_on callback w ch h =
      ap
        (λ (r : Result World).
          r >>= λ v. ok (record { kbd = h.kbd; world = v; unread = h.unread; ended = true }))
        (call_each-append callback w (emitted ch) h.bytes)
      ∙ behind (call_each callback w (emitted ch))
    where
      behind :
          (r : Result World)
          → ((r >>= λ v. call_each callback v h.bytes) >>= λ v.
              ok (record { kbd = h.kbd; world = v; unread = h.unread; ended = true }))
            ≡ (r >>= λ v. interrupted callback v h)
      behind (ok v) = refl
      behind panic = refl

  bind-cong :
      (r : Result World) (f g : World → Result (Interrupted World))
      → ((v : World) → f v ≡ g v)
      → (r >>= f) ≡ (r >>= g)
  bind-cong (ok v) f g h = h v
  bind-cong panic f g h = refl

  -- The callback on the bytes of a code, and then on those of the others.
  interrupted-rest :
      (callback : World → ℕ → Result World) (w : World) (ch : ℕ) (q : Result Handled)
      → (call_each callback w (emitted ch) >>= λ v. q >>= λ h. interrupted callback v h)
        ≡ ((q >>= λ h. ok (hand_on ch h)) >>= λ h. interrupted callback w h)
  interrupted-rest callback w ch (ok h) = sym (interrupted-hand_on callback w ch h)
  interrupted-rest callback w ch panic = stops (call_each callback w (emitted ch))
    where
      stops :
          (r : Result World)
          → (r >>= λ v. ◌>>=◌ {A = Handled} panic (interrupted callback v)) ≡ panic
      stops (ok v) = refl
      stops panic = refl

  intr_loop-read_codes :
      (callback : World → ℕ → Result World) (k : Kbd) (w : World) (codes : List ℕ)
      → intr_loop callback k w codes ≡ (read_codes k codes >>= λ h. interrupted callback w h)
  unfolding intr_loop read_codes call_each
  intr_loop-read_codes callback k w [] = refl
  intr_loop-read_codes callback k w (code ∷ codes) =
      by_code (read_code k code) (λ k' v. intr_loop-read_codes callback k' v codes)
    where
      by_code :
          (r : Result (Kbd × ℕ))
          → ((k' : Kbd) (v : World)
              → intr_loop callback k' v codes
                ≡ (read_codes k' codes >>= λ h. interrupted callback v h))
          → (r >>= λ (k', ch).
              let rest : Result (Interrupted World) =
                call_each callback w (emitted ch) >>= λ v. intr_loop callback k' v codes in
              if ch == 0
              then ok (record { kbd = k'; world = w; unread = codes; ended = true })
              else rest)
            ≡ ((r >>= λ (k', ch).
                  let rest : Result Handled = read_codes k' codes >>= λ h. ok (hand_on ch h) in
                  if ch == 0 then ok (record { kbd = k'; bytes = []; unread = codes }) else rest)
                >>= λ h. interrupted callback w h)
      by_code panic ih = refl
      by_code (ok (k', ch)) ih = elim (Bool-cases (ch == 0)) [
        | inl e ↦ rw e refl
        | inr e ↦ rw e (
            bind-cong (call_each callback w (emitted ch)) (λ v. intr_loop callback k' v codes)
              (λ v. read_codes k' codes >>= λ h. interrupted callback v h) (ih k')
            ∙ interrupted-rest callback w ch (read_codes k' codes))
      ]

  -- For every sequence of scan codes, whatever keys and flags are set and whatever the callback does:
  -- the interrupt makes bytes of the codes without a panic, and calls the callback with these bytes,
  -- one after the other. It panics when the callback does, and otherwise ends at the controller.
  pub intr-read_codes :
      (callback : World → ℕ → Result World) (k : Kbd) (w : World) (codes : List ℕ)
      → AreBytes codes
      → (h : Handled) × (read_codes k codes ≡ ok h)
        × (intr (some callback) k w codes ≡ interrupted callback w h)
  unfolding intr
  intr-read_codes callback k w codes b =
      let (h, e) = read_codes_total k codes b in
      (
        h,
        e,
        intr_loop-read_codes callback k w codes
            ∙ ap (λ (r : Result Handled). r >>= λ x. interrupted callback w x) e,
      )

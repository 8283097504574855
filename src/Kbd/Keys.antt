-- ===== src/Kbd/Keys.antt =====
-- Which bytes the keys give, and what keyPressed remembers of them.
use eggos.Base.{
  ℕ, ◌+◌, ◌-◌, ◌<◌, ◌≡◌, refl, ap, Bool, true, false, ◌&&◌, not, bit_or, leb, ◌==◌, Result, ok,
  panic, ◌>>=◌, arith,
}
use eggos.Base.Below.{all_below, of_all_below}
use eggos.Kbd.{
  Kbd, capslock, clear_bits, charcode, char_of, typed, set_pressed, swap_case, release_key, release,
  press, read_code,
}
use eggos.Kbd.Tables.{shiftcode, togglecode, normalmap, shiftmap, ctlmap}

-- The byte of a result, and whether a key is held after it.
abbrev pub code_is : ℕ → Result (Kbd × ℕ) → Bool
code_is c (ok (k, d)) = d == c
code_is c panic = false

abbrev pub held : ℕ → Result (Kbd × ℕ) → Bool
held c (ok (k, d)) = k.pressed c
held c panic = false

abbrev pub flags_are : ℕ → Result (Kbd × ℕ) → Bool
flags_are f (ok (k, d)) = k.shift == f
flags_are f panic = false

-- A key and its release.
unfoldable pub press_release : Kbd → ℕ → Result (Kbd × ℕ)
press_release k code = read_code k code >>= λ (k', c). read_code k' (code + 0x80)

abbrev pub keyboard : ℕ → (ℕ → Bool) → Kbd
keyboard flags p = record { shift = flags; pressed = p }

-- The letter keys: those whose byte is a lower-case letter.
abbrev pub is_letter : ℕ → Bool
is_letter code = leb b'a' (normalmap code) && leb (normalmap code) b'z'

-- The keys that change no flag.
abbrev pub is_plain_key : ℕ → Bool
is_plain_key code = shiftcode code == 0 && togglecode code == 0

implies : Bool → Bool → Bool
implies true q = q
implies false q = true

implies_elim : (p q : Bool) → implies p q ≡ true → p ≡ true → q ≡ true
unfolding implies
implies_elim true q h e = h
implies_elim false q h e = cc

caps_check :
    (p : ℕ → Bool)
    → all_below 96 (λ d.
      implies (is_letter d) (held (normalmap d - 32) (press_release (keyboard capslock p) d)))
      ≡ true
unfolding all_below implies press_release read_code press release release_key char_of charcode typed
    set_pressed swap_case shiftcode togglecode normalmap shiftmap ctlmap
caps_check p = refl

-- With CAPSLOCK on, a letter key that is pressed and released leaves its upper-case letter marked
-- as pressed, whatever keys were pressed before: the release does not apply CAPSLOCK.
pub caps_letter_stuck :
    (p : ℕ → Bool) (d : ℕ)
    → d < 96
    → is_letter d ≡ true
    → held (normalmap d - 32) (press_release (keyboard capslock p) d) ≡ true
caps_letter_stuck p d h l = implies_elim _ _ (of_all_below 96 _ d (caps_check p) h) l

plain_check :
    (p : ℕ → Bool)
    → all_below 8 (λ s. all_below 96 (λ d. implies (is_plain_key d) (
        code_is (typed s d) (read_code (keyboard s p) d)
        && (held (typed s d) (read_code (keyboard s p) d)
            && (not (held (typed s d) (press_release (keyboard s p) d))
                && flags_are s (press_release (keyboard s p) d))))))
      ≡ true
unfolding all_below implies press_release read_code press release release_key char_of charcode typed
    set_pressed swap_case shiftcode togglecode normalmap shiftmap ctlmap
plain_check p = refl

-- With any of SHIFT, CTL and ALT held and CAPSLOCK off, a key that is no modifier gives the byte of
-- its map and is marked as pressed; its release takes the mark away and leaves the flags as they
-- were.
pub plain_key :
    (p : ℕ → Bool) (s d : ℕ)
    → s < 8
    → d < 96
    → is_plain_key d ≡ true
    → (code_is (typed s d) (read_code (keyboard s p) d) ≡ true)
      × (held (typed s d) (read_code (keyboard s p) d) ≡ true)
      × (held (typed s d) (press_release (keyboard s p) d) ≡ false)
      × (flags_are s (press_release (keyboard s p) d) ≡ true)
plain_key p s d hs hd l =
    ground
      (arith, implies_elim _ _ (of_all_below 96 _ d (of_all_below 8 _ s (plain_check p) hs) hd) l)

modifier_check :
    (p : ℕ → Bool)
    → all_below 64 (λ s. all_below 96 (λ d. implies (not (shiftcode d == 0)) (
        flags_are (bit_or s (shiftcode d)) (read_code (keyboard s p) d)
        && flags_are (clear_bits s (shiftcode d)) (press_release (keyboard s p) d))))
      ≡ true
unfolding all_below implies press_release read_code press release release_key char_of charcode typed
    set_pressed swap_case shiftcode togglecode normalmap shiftmap ctlmap
modifier_check p = refl

-- A modifier key sets its flag when pressed and clears it when released, and touches no other flag.
pub modifier_key :
    (p : ℕ → Bool) (s d : ℕ)
    → s < 64
    → d < 96
    → (shiftcode d == 0) ≡ false
    → (flags_are (bit_or s (shiftcode d)) (read_code (keyboard s p) d) ≡ true)
      × (flags_are (clear_bits s (shiftcode d)) (press_release (keyboard s p) d) ≡ true)
modifier_key p s d hs hd l = ground (
  arith,
  implies_elim _ _ (of_all_below 96 _ d (of_all_below 64 _ s (modifier_check p) hs) hd) (ap not l),
)

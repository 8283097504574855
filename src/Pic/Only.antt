-- ===== src/Pic/Only.antt =====
-- pic/pic.go: EnableIRQ and the other lines.
use eggos.Base.{
  ℕ, ◌-◌, ◌%◌, ◌^◌, ◌<◌, ◌≤◌, ◌≡◌, ◌≢◌, refl, subst, true, false, not, leb, ltb, ◌==◌, ◌||◌,
  bit_and, if◌then◌else◌, arith, Bool-cases, inl, inr,
}
use eggos.Base.BitSets.{has_bit, has_bit-and}
use eggos.Base.Below.{all_below, of_all_below}
use eggos.Pic.{Pic, enable_irq}
use eggos.Pic.Masks.{is_open}

-- The bit of a line below 16 in an 8-bit mask.
abbrev opening : ℕ → ℕ
opening j = 255 - (if ltb j 16 then 2 ^ j else 0) % 256

has_bit-opening_below : (i j : ℕ) → i < 8 → j < 16 → i ≢ j → has_bit i (opening j) ≡ true
unfolding has_bit all_below
has_bit-opening_below i j h below ne =
    let row = of_all_below 8 (λ x. all_below 16 (λ y. x == y || has_bit x (opening y))) i refl h in
    let cell = of_all_below 16 (λ y. i == y || has_bit i (opening y)) j row below in
    let apart : (i == j) ≡ false = ground (arith, ne) in
    subst (λ b. (b || has_bit i (opening j)) ≡ true) apart cell

has_bit-opening_above : (i j : ℕ) → i < 8 → 16 ≤ j → has_bit i (opening j) ≡ true
unfolding has_bit all_below
has_bit-opening_above i j h above =
    let big : ltb j 16 ≡ false = ground (arith, above) in
    rw big (of_all_below 8 (λ x. has_bit x 255) i refl h)

has_bit-opening : (i j : ℕ) → i < 8 → i ≢ j → has_bit i (opening j) ≡ true
has_bit-opening i j h ne = elim (Bool-cases (ltb j 16)) [
  | inl small ↦ has_bit-opening_below i j h (ground (arith, small)) ne
  | inr big ↦ has_bit-opening_above i j h (ground (arith, big))
]

was_open :
    (i j m : ℕ)
    → i < 8
    → i ≢ j
    → not (has_bit i (bit_and m (opening j))) ≡ true
    → not (has_bit i m) ≡ true
was_open i j m h ne o = ground (arith, has_bit-and i m (opening j), has_bit-opening i j h ne, o)

-- A line that is open behind EnableIRQ of another one was open before.
pub enable_irq-only :
    (p : Pic) (other line : ℕ)
    → line < 16
    → line ≢ other
    → is_open (enable_irq p other) line ≡ true
    → is_open p line ≡ true
unfolding enable_irq
enable_irq-only p other line h ne = elim (Bool-cases (leb 8 line)) [
  | inl second ↦ elim (Bool-cases (leb 8 other)) [
    | inl e ↦
        rw (second, e)
          (was_open (line - 8) (other - 8) p.mask2 (omega (arith, h))
            (λ x. ne (ground (arith, x, second, e))))
    | inr e ↦ rw (second, e) (λ o. o)
  ]
  | inr first ↦ elim (Bool-cases (leb 8 other)) [
    | inl e ↦ rw (first, e) (λ o. o)
    | inr e ↦ rw (first, e) (was_open line other p.mask1 (ground (arith, first)) ne)
  ]
]

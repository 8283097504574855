-- ===== src/Pic/Masks.antt =====
-- Which lines of the interrupt controllers are open.
use eggos.Base.{
  ℕ, ◌-◌, ◌%◌, ◌^◌, ◌<◌, ◌≡◌, refl, subst, Bool, true, not, leb, ltb, bit_and, if◌then◌else◌, arith,
  Bool-cases, inl, inr,
}
use eggos.Base.BitSets.{has_bit, has_bit-and}
use eggos.Base.Below.{all_below, of_all_below}
use eggos.Pic.{Pic, enable_irq}

abbrev pub is_open : Pic → ℕ → Bool
is_open p line = not (if leb 8 line then has_bit (line - 8) p.mask2 else has_bit line p.mask1)

-- The mask that clears bit i does not have it.
clears : (i : ℕ) → i < 8 → not (has_bit i (255 - 2 ^ i % 256)) ≡ true
unfolding has_bit all_below
clears i h = of_all_below 8 (λ j. not (has_bit j (255 - 2 ^ j % 256))) i refl h

cleared : (i m x : ℕ) → not (has_bit i x) ≡ true → not (has_bit i (bit_and m x)) ≡ true
cleared i m x h = ground (arith, has_bit-and i m x, h)

kept : (i m x : ℕ) → not (has_bit i m) ≡ true → not (has_bit i (bit_and m x)) ≡ true
kept i m x h = ground (arith, has_bit-and i m x, h)

pub enable_irq-opens : (p : Pic) (line : ℕ) → line < 16 → is_open (enable_irq p line) line ≡ true
unfolding enable_irq
enable_irq-opens p line h = elim (Bool-cases (leb 8 line)) [
  | inl second ↦
      let i : ltb (line - 8) 16 ≡ true = ground (arith, h) in
      rw (second, i)
        (cleared (line - 8) p.mask2 (255 - 2 ^ (line - 8) % 256)
          (clears (line - 8) (ground (arith, h, second))))
  | inr first ↦
      let i : ltb line 16 ≡ true = ground (arith, h) in
      rw (first, i)
        (cleared line p.mask1 (255 - 2 ^ line % 256) (clears line (ground (arith, first))))
]

pub enable_irq-keeps :
    (p : Pic) (other line : ℕ) → is_open p line ≡ true → is_open (enable_irq p other) line ≡ true
unfolding enable_irq
enable_irq-keeps p other line h = elim (Bool-cases (leb 8 line)) [
  | inl second ↦
      let k : not (has_bit (line - 8) p.mask2) ≡ true =
        subst (λ b. not (if b then has_bit (line - 8) p.mask2 else has_bit line p.mask1) ≡ true)
          second h in
      elim (Bool-cases (leb 8 other)) [
        | inl e ↦ rw (second, e) (kept (line - 8) p.mask2 _ k)
        | inr e ↦ rw (second, e) k
      ]
  | inr first ↦
      let k : not (has_bit line p.mask1) ≡ true =
        subst (λ b. not (if b then has_bit (line - 8) p.mask2 else has_bit line p.mask1) ≡ true)
          first h in
      elim (Bool-cases (leb 8 other)) [
        | inl e ↦ rw (first, e) k
        | inr e ↦ rw (first, e) (kept line p.mask1 _ k)
      ]
]

-- ===== src/Vbe/Pixels.antt =====
-- What the two line operations of vbe store, pixel by pixel.
use eggos.Base.{
  ℕ, zero, suc, ◌+◌, ◌-◌, ◌*◌, ◌/◌, ◌<◌, ◌≤◌, ◌≡◌, refl, sym, ap, Bool, ltb, leb, ◌==◌, ◌&&◌,
  if◌then◌else◌, Result, ok, panic, arith, Bool-cases, inl, inr, subst, lt→ltb,
}
use eggos.Vbe.{Slice, LineOp, put_pixel, put_pixels, convert, copy}

-- The byte of a pixel that a conversion takes for byte k.
unfoldable pub swap : ℕ → ℕ
swap k = if k == 0 then 2 else if k == 2 then 0 else k

abbrev pub in_range : ℕ → ℕ → ℕ → Bool
in_range lo hi q = leb lo q && ltb q hi

-- A slice of n pixels from pixel q on.
abbrev pub pixel_slice : ℕ → ℕ → ℕ → Slice
pixel_slice q n cap = record { start = 4 * q; len = 4 * n; cap = cap }

put_pixel-byte :
    (d s : ℕ → ℕ) (p q k : ℕ)
    → k < 4
    → put_pixel d (4 * p) s (4 * p) (4 * q + k)
      ≡ (if q == p then s (4 * q + swap k) else d (4 * q + k))
unfolding swap
put_pixel-byte d s p q zero h = ground arith
put_pixel-byte d s p q (suc zero) h = ground arith
put_pixel-byte d s p q (suc (suc zero)) h = ground arith
put_pixel-byte d s p q (suc (suc (suc zero))) h = ground arith
put_pixel-byte d s p q (suc (suc (suc (suc k)))) h = absurd (omega (arith, h))

-- Byte k of pixel q is taken from s where `inside`, and otherwise as in d.
unfoldable pub Taken : Bool → (ℕ → ℕ) → (ℕ → ℕ) → (ℕ → ℕ) → ℕ → ℕ → Result (ℕ → ℕ) → Type 0
Taken inside pick s d q k panic = ⊥
Taken inside pick s d q k (ok r) =
    r (4 * q + k) ≡ (if inside then s (4 * q + pick k) else d (4 * q + k))

-- The same for the pixels of a range.
abbrev pub Draws : (ℕ → ℕ) → (ℕ → ℕ) → (ℕ → ℕ) → ℕ → ℕ → ℕ → ℕ → Result (ℕ → ℕ) → Type 0
Draws pick s d lo hi q k = Taken (in_range lo hi q) pick s d q k

put_pixels-step :
    (s d : ℕ → ℕ) (to from : Slice) (n i : ℕ)
    → i + 3 < to.len
    → i + 3 < from.len
    → put_pixels s to from (suc n) d i
      ≡ put_pixels s to from n (put_pixel d (to.start + i) s (from.start + i)) (i + 4)
unfolding put_pixels
put_pixels-step s d to from n i h k = rw (lt→ltb (i + 3) to.len h, lt→ltb (i + 3) from.len k) refl

-- The pixels drawn behind the first one, with it.
Draws-step :
    (s d d' : ℕ → ℕ) (p n q k : ℕ) (r : Result (ℕ → ℕ))
    → d' (4 * q + k) ≡ (if q == p then s (4 * q + swap k) else d (4 * q + k))
    → Draws swap s d' (p + 1) (p + 1 + n) q k r
    → Draws swap s d p (p + suc n) q k r
unfolding Taken
Draws-step s d d' p n q k panic h t = t
Draws-step s d d' p n q k (ok r) h t = ground (arith, h, t)

pub Draws-put_pixels :
    (s : ℕ → ℕ) (q0 len cap cap' q k : ℕ)
    → k < 4
    → (n : ℕ) (d : ℕ → ℕ) (m : ℕ) → m + n ≤ len
    → Draws swap s d
        (q0 + m)
        (q0 + m + n)
        q
        k
        (put_pixels s (pixel_slice q0 len cap) (pixel_slice q0 len cap') n d (4 * m))
unfolding Taken put_pixels
Draws-put_pixels s q0 len cap cap' q k hk zero d m h = ground arith
Draws-put_pixels s q0 len cap cap' q k hk (suc n) d m h =
    let to = pixel_slice q0 len cap in
    let from = pixel_slice q0 len cap' in
    let here : 4 * (q0 + m) ≡ 4 * q0 + 4 * m = omega arith in
    let next : 4 * (m + 1) ≡ 4 * m + 4 = omega arith in
    let pixel : q0 + (m + 1) ≡ q0 + m + 1 = omega arith in
    let d' : ℕ → ℕ = put_pixel d (4 * q0 + 4 * m) s (4 * q0 + 4 * m) in
    let byte =
      subst
        (λ x.
          put_pixel d x s x (4 * q + k)
          ≡ (if q == q0 + m then s (4 * q + swap k) else d (4 * q + k)))
        here (put_pixel-byte d s (q0 + m) q k hk) in
    let rest =
      subst
        (λ x. Draws swap s d' (q0 + (m + 1)) (q0 + (m + 1) + n) q k (put_pixels s to from n d' x))
        next (Draws-put_pixels s q0 len cap cap' q k hk n d' (m + 1) (omega (arith, h))) in
    let rest' =
      subst (λ x. Draws swap s d' x (x + n) q k (put_pixels s to from n d' (4 * m + 4))) pixel
        rest in
    subst (Draws swap s d (q0 + m) (q0 + m + suc n) q k)
      (sym (put_pixels-step s d to from n (4 * m) (omega (arith, h)) (omega (arith, h))))
      (Draws-step s d d' (q0 + m) n q k (put_pixels s to from n d' (4 * m + 4)) byte rest')

-- What a line operation does to slices of n pixels that start at the same pixel.
unfoldable pub DrawsLines : (ℕ → ℕ) → (ℕ → ℕ) → ℕ → ℕ → LineOp → Type 0
DrawsLines pick s q k op =
    (d : ℕ → ℕ) (p n cap cap' : ℕ)
    → Draws pick s d p (p + n) q k (op d (pixel_slice p n cap) (pixel_slice p n cap'))

pub convert-DrawsLines : (s : ℕ → ℕ) (q k : ℕ) → k < 4 → DrawsLines swap s q k (convert s)
unfolding DrawsLines convert
convert-DrawsLines s q k h d p n cap cap' =
    let count : (4 * n + 3) / 4 ≡ n = omega arith in
    subst
      (λ x.
        Draws swap s d p (p + n) q k
          (put_pixels s (pixel_slice p n cap) (pixel_slice p n cap') x d 0))
      (sym count)
      (subst
        (λ x.
          Draws swap s d x (x + n) q k
            (put_pixels s (pixel_slice p n cap) (pixel_slice p n cap') n d 0))
        (omega arith) (Draws-put_pixels s p n cap cap' q k h n d 0 (omega arith)))

pub copy-DrawsLines : (s : ℕ → ℕ) (q k : ℕ) → k < 4 → DrawsLines (λ x. x) s q k (copy s)
unfolding DrawsLines copy Taken
copy-DrawsLines s q k h d p n cap cap' = elim (Bool-cases (leb (4 * p) (4 * q + k))) [
  | inl above ↦
      let at : 4 * p + (4 * q + k - 4 * p) ≡ 4 * q + k = ground (arith, above) in
      ground (arith, h, above, ap s at)
  | inr below ↦ ground (arith, h, below)
]

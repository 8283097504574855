-- ===== src/Kernel/Frames/Words.antt =====
-- Words in memory: what is written is read back, and the rest stays.
use eggos.Base.{
  ℕ, zero, suc, ◌+◌, ◌*◌, ◌<◌, ◌≤◌, ◌≡◌, refl, ap, ◌∙◌, List, [], ◌∷◌, length, get_or, arith, ap₂,
}
use eggos.Kernel.Frames.{write_words, read_words}

pub write_words-below :
    (mem : ℕ → ℕ) (t a : ℕ) (ws : List ℕ) → a < t → write_words mem t ws a ≡ mem a
unfolding write_words
write_words-below mem t a [] h = refl
write_words-below mem t a (w ∷ ws) h =
    ground (arith, h, write_words-below mem (t + 4) a ws (omega arith))

pub write_words-above :
    (mem : ℕ → ℕ) (t a : ℕ) (ws : List ℕ) → t + length ws * 4 ≤ a → write_words mem t ws a ≡ mem a
unfolding write_words
write_words-above mem t a [] h = refl
write_words-above mem t a (w ∷ ws) h =
    ground (arith, h, write_words-above mem (t + 4) a ws (omega arith))

-- Word i of what is written at t.
pub write_words-get :
    (mem : ℕ → ℕ) (t i : ℕ) (ws : List ℕ)
    → i < length ws
    → write_words mem t ws (t + i * 4) ≡ get_or ws i 0
unfolding write_words
write_words-get mem t i [] h = absurd (omega (arith, h))
write_words-get mem t zero (w ∷ ws) h = ground arith
write_words-get mem t (suc i) (w ∷ ws) h =
    let e : t + suc i * 4 ≡ t + 4 + i * 4 = omega arith in
    let there = write_words-get mem (t + 4) i ws (omega (arith, h)) in
    ground (arith, there, ap (write_words mem (t + 4) ws) e)

pub read_words-ext :
    (m1 m2 : ℕ → ℕ) (t n : ℕ)
    → ((a : ℕ) → t ≤ a → a < t + n * 4 → m1 a ≡ m2 a)
    → read_words m1 t n ≡ read_words m2 t n
unfolding read_words
read_words-ext m1 m2 t zero same = refl
read_words-ext m1 m2 t (suc n) same =
    ap₂ (λ x xs. x ∷ xs) (same t (omega arith) (omega arith))
      (read_words-ext m1 m2 (t + 4) n (λ a h k. same a (omega (arith, h)) (omega (arith, k))))

-- Words that are written at an address are the words that are read there.
pub read_words-write_words :
    (mem : ℕ → ℕ) (t : ℕ) (ws : List ℕ) → read_words (write_words mem t ws) t (length ws) ≡ ws
unfolding read_words write_words
read_words-write_words mem t [] = refl
read_words-write_words mem t (w ∷ ws) =
    let rest : read_words (write_words mem t (w ∷ ws)) (t + 4) (length ws)
        ≡ read_words (write_words mem (t + 4) ws) (t + 4) (length ws) =
      read_words-ext _ _ (t + 4) (length ws) (λ a h k. ground (arith, h)) in
    ap₂ (λ x xs. x ∷ xs) (ground arith) (rest ∙ read_words-write_words mem (t + 4) ws)

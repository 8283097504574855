-- ===== src/Kernel/Args/Layout.antt =====
-- The first stack as the runtime reads it.
pub mod Tests
use eggos.Base.{
  ℕ, zero, suc, ◌+◌, ◌-◌, ◌*◌, ◌/◌, ◌%◌, ◌^◌, ◌<◌, ◌≤◌, ◌≡◌, refl, ap, ◌∙◌, List, [], ◌∷◌, ◌++◌,
  length, take, drop, get_or, arith,
}
use eggos.Base.Words.{word}
use eggos.Kernel.Args.{Buf, word_bytes, program_name, terminal, prepare_args}

-- The word at an offset of the buffer.
abbrev pub word_at : List ℕ → ℕ → ℕ
word_at bytes off =
    get_or bytes off 0
    + get_or bytes (off + 1) 0 * 2 ^ 8
    + get_or bytes (off + 2) 0 * 2 ^ 16
    + get_or bytes (off + 3) 0 * 2 ^ 24

-- The bytes of a string that starts at an address of the buffer, its final 0 included.
pub through_zero : List ℕ → List ℕ
through_zero [] = []
through_zero (zero ∷ bytes) = zero ∷ []
through_zero (suc c ∷ bytes) = suc c ∷ through_zero bytes

abbrev pub string_at : Buf → ℕ → List ℕ
string_at b address = through_zero (drop (address - b.at) b.written)

word_bytes-value : (v : ℕ) → v < word → word_at (word_bytes v) 0 ≡ v
word_bytes-value v h = omega (arith, h)

-- With 256 bytes left below the end of the address space, the stack that prepareArgs leaves has one
-- argument, the name of the program, then a null, the one variable of the environment, a null,
-- and an auxiliary vector with the page size; all of it within the 256 bytes of the buffer.
pub prepare_args-layout :
    (sp : ℕ)
    → sp + 256 < word
    → let b = prepare_args sp in
      let w = word_at b.written in
      (w 0 ≡ 1)
      × (string_at b (w 4) ≡ program_name)
      × (w 8 ≡ 0)
      × (string_at b (w 12) ≡ terminal)
      × (w 16 ≡ 0)
      × (w 20 ≡ 6)
      × (w 24 ≡ 4096)
      × (w 28 ≡ 0)
      × (length b.written ≤ 256)
unfolding prepare_args through_zero
prepare_args-layout sp h =
    let at : ℕ → List ℕ = λ k. through_zero (drop k (prepare_args sp).written) in
    let name : word_at (word_bytes (sp + 36)) 0 - sp ≡ 36 =
      omega (arith, word_bytes-value (sp + 36) (omega (arith, h))) in
    let term : word_at (word_bytes (sp + 43)) 0 - sp ≡ 43 =
      omega (arith, word_bytes-value (sp + 43) (omega (arith, h))) in
    (refl, ap at name, refl, ap at term, refl, refl, refl, refl, omega arith)

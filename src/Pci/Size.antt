-- ===== src/Pci/Size.antt =====
-- pci/addr.go: the size of a memory region, and what reading it leaves behind.
use eggos.Base.{
  ℕ, ◌+◌, ◌-◌, ◌*◌, ◌/◌, ◌%◌, ◌<◌, ◌≡◌, refl, ap, ◌∙◌, true, not, bit_and, ◌==◌, if◌then◌else◌, ok,
  panic, ◌>>=◌, arith, Bool-cases, inl, inr, ==_iff, le→ltb,
}
use eggos.Base.Below.{all_below, of_all_below}
use eggos.Base.Words.{word}
use eggos.Pci.{
  Address, Space, config_addr, read_register, write_register, put, measure, bar_of, read_bar,
}

aligned_check : all_below 6 (λ b. bit_and (16 + b * 4) 3 == 0) ≡ true
unfolding all_below
aligned_check = refl

aligned : (bar : ℕ) → bar < 6 → (bit_and (16 + bar * 4) 3 == 0) ≡ true
aligned bar h = of_all_below 6 (λ b. bit_and (16 + b * 4) 3 == 0) bar aligned_check h

read_register-ok :
    (s : Space) (a : Address) (reg : ℕ)
    → (bit_and reg 3 == 0) ≡ true
    → read_register s a reg ≡ ok (s (config_addr a reg))
unfolding read_register
read_register-ok s a reg h = rw h refl

module _ (latch : ℕ → ℕ → ℕ) where
  write_register-ok :
      (s : Space) (a : Address) (reg v : ℕ)
      → (bit_and reg 3 == 0) ≡ true
      → write_register latch s a reg v ≡ ok (put latch s (config_addr a reg) v)
  unfolding write_register
  write_register-ok s a reg v h = rw h refl

  put_self : (s : Space) (p v : ℕ) → put latch s p v p ≡ latch p v
  put_self s p v = ground arith

  ==_flip : (q p : ℕ) → (q == p) ≡ true → (p == q) ≡ true
  ==_flip q p h = ground arith

  put_restored :
      (s : Space) (p v q : ℕ) → latch p (s p) ≡ s p → put latch (put latch s p v) p (s p) q ≡ s q
  put_restored s p v q h = elim (Bool-cases (q == p)) [
    | inl e ↦ rw e (h ∙ ap s ((==_iff p q).0 (==_flip q p e)))
    | inr n ↦ rw n refl
  ]

  measure-ok :
      (s : Space) (a : Address) (reg addr0 : ℕ)
      → (bit_and reg 3 == 0) ≡ true
      → measure latch s a reg addr0
        ≡ ok (
          record {
            addr = addr0 / 16 * 16;
            len = (word - 1 - latch (config_addr a reg) 0xffffffff / 16 * 16 + 1) % word;
            prefetch = not (bit_and addr0 8 == 0);
            is_mem = true;
          },
          put latch (put latch s (config_addr a reg) 0xffffffff) (config_addr a reg) addr0,
        )
  unfolding measure
  measure-ok s a reg addr0 h =
      rw
        (
          write_register-ok s a reg 0xffffffff h,
          read_register-ok (put latch s (config_addr a reg) 0xffffffff) a reg h,
          write_register-ok (put latch s (config_addr a reg) 0xffffffff) a reg addr0 h,
        )
        (ap
          (λ v. ok (
            record {
              addr = addr0 / 16 * 16;
              len = (word - 1 - v / 16 * 16 + 1) % word;
              prefetch = not (bit_and addr0 8 == 0);
              is_mem = true;
            },
            put latch (put latch s (config_addr a reg) 0xffffffff) (config_addr a reg) addr0,
          ))
          (put_self s (config_addr a reg) 0xffffffff))

  bar_of-memory :
      (s : Space) (a : Address) (reg addr0 : ℕ)
      → (bit_and addr0 1 == 0) ≡ true
      → (addr0 / 2 % 4 == 0) ≡ true
      → bar_of latch s a reg addr0 ≡ measure latch s a reg addr0
  bar_of-memory s a reg addr0 h k = rw (h, k) refl

  -- ReadBAR of a 32-bit memory region returns its size, its address and its flag, if the register
  -- reads back, behind a write of ones, as the mask of a region of that size, and holds its old
  -- value when that is written again; every register then reads as before.
  pub read_bar-size :
      (s : Space) (a : Address) (bar size q : ℕ)
      → bar < 6
      → (bit_and (s (config_addr a (16 + bar * 4))) 1 == 0) ≡ true
      → (s (config_addr a (16 + bar * 4)) / 2 % 4 == 0) ≡ true
      → 0 < size
      → size < word
      → latch (config_addr a (16 + bar * 4)) 0xffffffff / 16 * 16 ≡ word - size
      → latch (config_addr a (16 + bar * 4)) (s (config_addr a (16 + bar * 4)))
        ≡ s (config_addr a (16 + bar * 4))
      → (s' : Space) × (read_bar latch s a bar
          ≡ ok (
            record {
              addr = s (config_addr a (16 + bar * 4)) / 16 * 16;
              len = size;
              prefetch = not (bit_and (s (config_addr a (16 + bar * 4))) 8 == 0);
              is_mem = true;
            },
            s',
          ))
        × (s' q ≡ s q)
  unfolding read_bar
  read_bar-size s a bar size q below memory wide low high mask holds =
      (put latch (put latch s p 0xffffffff) p (s p), runs, put_restored s p 0xffffffff q holds)
    where
      p : ℕ
      p = config_addr a (16 + bar * 4)

      reg : ℕ
      reg = 16 + bar * 4

      len_eq : (word - 1 - latch p 0xffffffff / 16 * 16 + 1) % word ≡ size
      len_eq = omega arith

      runs :
          read_bar latch s a bar
          ≡ ok (
            record {
              addr = s p / 16 * 16;
              len = size;
              prefetch = not (bit_and (s p) 8 == 0);
              is_mem = true;
            },
            put latch (put latch s p 0xffffffff) p (s p),
          )
      runs =
          ap (λ c. if c then panic else (read_register s a reg >>= bar_of latch s a reg))
            (le→ltb 5 bar (omega arith))
          ∙ ap (λ m. m >>= bar_of latch s a reg) (read_register-ok s a reg (aligned bar below))
          ∙ bar_of-memory s a reg (s p) memory wide
          ∙ measure-ok s a reg (s p) (aligned bar below)
          ∙ ap
              (λ l. ok (
                record {
                  addr = s p / 16 * 16;
                  len = l;
                  prefetch = not (bit_and (s p) 8 == 0);
                  is_mem = true;
                },
                put latch (put latch s p 0xffffffff) p (s p),
              ))
              len_eq

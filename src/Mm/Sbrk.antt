-- ===== src/Mm/Sbrk.antt =====
-- mm/mm.go: the kernel's virtual addresses.
use eggos.Base.{ℕ, ◌+◌, ◌-◌, ◌%◌, ◌≤◌, ◌<◌, ◌≡◌, ap, ◌∙◌, ltb, if◌then◌else◌, ok, panic, arith}
use eggos.Base.Words.{word, add32}
use eggos.Mm.{Mm, pgsize, page_round_up, sbrk}

-- From a page boundary, sbrk returns that boundary and reserves n bytes behind it, rounded up to
-- whole pages, if these end below the top of the address space.
pub sbrk_region :
    (k : Mm) (n : ℕ)
    → k.voffset % pgsize ≡ 0
    → k.voffset + n + pgsize ≤ word
    → (v : ℕ) × (sbrk k n ≡ ok (k.voffset, record k { voffset = v }))
      × (v % pgsize ≡ 0)
      × (k.voffset + n ≤ v)
      × (v < k.voffset + n + pgsize)
unfolding sbrk
sbrk_region k n aligned room =
    (page_round_up (add32 k.voffset n), ground arith, omega arith, omega arith, omega arith)

-- A size in the last page of the address space wraps around: sbrk does not panic, and reserves
-- nothing.
pub sbrk_wrap :
    (k : Mm) (n : ℕ)
    → k.voffset % pgsize ≡ 0
    → pgsize ≤ k.voffset
    → k.voffset < word
    → word - pgsize < n
    → n < word
    → sbrk k n ≡ ok (k.voffset, k)
unfolding sbrk
sbrk_wrap k n aligned low high large fits =
    ap (λ v. if ltb v k.voffset then panic else ok (k.voffset, record k { voffset = v })) same
    ∙ ground arith
  where
    same : page_round_up (add32 k.voffset n) ≡ k.voffset
    same = omega arith

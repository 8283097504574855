-- ===== src/Mm.antt =====
-- mm/mm.go: physical pages, kernel virtual addresses and page tables. Memory is its words, by the
-- address of a word; a uintptr is its pattern below 2 ^ 32; a nil pointer is 0. The loops over
-- pages go from p to last in steps of a page, around the address space if need be; each recurses
-- on the number of its rounds. A missing page table gives false, as a nil entry does.
pub mod FreeList
pub mod Sbrk
pub mod Translate
pub mod Boot
pub mod Pool
pub mod Tests
use eggos.Base.{
  ℕ, zero, suc, ◌+◌, ◌-◌, ◌*◌, ◌/◌, ◌%◌, ◌^◌, Bool, true, false, Option, none, some, ◌&&◌, ◌||◌,
  not, bit_and, bit_or, ltb, leb, ◌==◌, if◌then◌else◌, Result, ok, panic, ◌>>=◌,
}
use eggos.Base.Words.{word, add32, sub32}

abbrev pub pgsize : ℕ
pgsize = 4096

-- PTE_P|PTE_W
abbrev pub pte_pw : ℕ
pte_pw = 3

-- x &^ (PGSIZE - 1)
abbrev pub page_round_down : ℕ → ℕ
page_round_down v = v / pgsize * pgsize

abbrev pub page_round_up : ℕ → ℕ
page_round_up size = page_round_down (sub32 (add32 size pgsize) 1)

abbrev pub page_dir_idx : ℕ → ℕ
page_dir_idx v = v / 2 ^ 22 % 1024

abbrev pub page_tab_idx : ℕ → ℕ
page_tab_idx v = v / 2 ^ 12 % 1024

-- kmm, vmm, memtop and the memory that they point into.
pub record Mm : Type 0 where
  pub mem : ℕ → ℕ
  pub memtop : ℕ
  pub freelist : ℕ
  pub voffset : ℕ
  pub allocs : ℕ
  pub pgdir : ℕ

abbrev pub store : (ℕ → ℕ) → ℕ → ℕ → ℕ → ℕ
store mem p v a = if a == p then v else mem a

-- sys.Memclr(p, PGSIZE)
abbrev pub clear_page : (ℕ → ℕ) → ℕ → ℕ → ℕ
clear_page mem p a = if leb p a && ltb a (p + pgsize) then 0 else mem a

unfoldable pub sbrk : Mm → ℕ → Result (ℕ × Mm)
sbrk k n =
    let v = page_round_up (add32 k.voffset n) in
    if ltb v k.voffset then panic else ok (k.voffset, record k { voffset = v })

unfoldable pub alloc : Mm → Result (ℕ × Mm)
alloc k =
    if k.freelist == 0
    then panic
    else ok (k.freelist, record k { allocs = k.allocs + 1; freelist = k.mem k.freelist })

unfoldable pub free : Mm → ℕ → Result Mm
free k p =
    if not (p % pgsize == 0) || leb k.memtop p
    then panic
    else ok (record k { mem = store k.mem p k.freelist; freelist = p })

-- The loop of freeRange, with n rounds left.
unfoldable pub free_pages : ℕ → ℕ → Mm → Result Mm
free_pages zero p k = ok k
free_pages (suc n) p k = free k p >>= free_pages n (p + pgsize)

-- Its test is p+PGSIZE <= end, below the top of the address space.
unfoldable pub free_range : Mm → ℕ → ℕ → Result Mm
free_range k start end = free_pages ((end - page_round_up start) / pgsize) (page_round_up start) k

-- The exported Alloc.
unfoldable pub alloc_cleared : Mm → Result (ℕ × Mm)
alloc_cleared k = alloc k >>= λ r. ok (r.0, record r.1 { mem = clear_page r.1.mem r.0 })

-- pdet.
abbrev pub present : ℕ → Bool
present e = not (bit_and e 1 == 0)

abbrev pub entry_addr : ℕ → ℕ
entry_addr e = e / pgsize * pgsize

abbrev pub dir_slot : Mm → ℕ → ℕ
dir_slot k va = k.pgdir + 4 * page_dir_idx va

abbrev pub tab_slot : ℕ → ℕ → ℕ
tab_slot e va = entry_addr e + 4 * page_tab_idx va

abbrev pub new_table : Mm → ℕ → ℕ → Mm
new_table k va addr = record k {
  mem = store (clear_page k.mem addr) (dir_slot k va) (bit_or addr pte_pw);
}

-- walkpgdir without and with `alloc`: the address of the entry.
unfoldable pub find_entry : Mm → ℕ → Option ℕ
find_entry k va =
    if present (k.mem (dir_slot k va)) then some (tab_slot (k.mem (dir_slot k va)) va) else none

abbrev pub walk_new : Mm → ℕ → Result (ℕ × Mm)
walk_new k va = alloc k >>= λ r. ok (tab_slot (bit_or r.0 pte_pw) va, new_table r.1 va r.0)

unfoldable pub walk : Mm → ℕ → Result (ℕ × Mm)
walk k va =
    if present (k.mem (dir_slot k va))
    then ok (tab_slot (k.mem (dir_slot k va)) va, k)
    else walk_new k va

-- One round of mmap, at the entry.
unfoldable pub map_fresh : Mm → ℕ → ℕ → Result Mm
map_fresh k entry perm = do
  r ← alloc k
  ok (record r.1 { mem = store (clear_page r.1.mem r.0) entry (bit_or r.0 perm) })

abbrev pub map_at : ℕ → ℕ × Mm → Result Mm
map_at perm (entry, k) = if present (k.mem entry) then panic else map_fresh k entry perm

unfoldable pub map_page : Mm → ℕ → ℕ → Result Mm
map_page k p perm = walk k p >>= map_at perm

-- The rounds behind the first.
abbrev pub rounds : ℕ → ℕ → ℕ
rounds va size = sub32 (page_round_down (sub32 (add32 va size) 1)) (page_round_down va) / pgsize

unfoldable pub map_pages : ℕ → Mm → ℕ → ℕ → Result Mm
map_pages zero k p perm = map_page k p perm
map_pages (suc n) k p perm = map_page k p perm >>= λ k'. map_pages n k' (add32 p pgsize) perm

unfoldable pub mmap : Mm → ℕ → ℕ → ℕ → Result Mm
mmap k va size perm = map_pages (rounds va size) k (page_round_down va) perm

abbrev map_region : ℕ → ℕ × Mm → Result (ℕ × Mm)
map_region size (va, k) = mmap k va size pte_pw >>= λ k'. ok (va, k')

-- The exported Mmap.
unfoldable pub mmap_kernel : Mm → ℕ → ℕ → Result (ℕ × Mm)
mmap_kernel k va size = (if va == 0 then sbrk k size else ok (va, k)) >>= map_region size

abbrev fix_at : ℕ → ℕ → ℕ × Mm → Result Mm
fix_at pa perm (entry, k) =
    if present (k.mem entry)
    then panic
    else ok (record k { mem = store k.mem entry (bit_or pa perm) })

unfoldable pub fix_pages : ℕ → Mm → ℕ → ℕ → ℕ → Result Mm
fix_pages zero k p pa perm = walk k p >>= fix_at pa perm
fix_pages (suc n) k p pa perm =
    walk k p >>= fix_at pa perm >>= λ k'. fix_pages n k' (add32 p pgsize) (add32 pa pgsize) perm

unfoldable pub fixmap : Mm → ℕ → ℕ → ℕ → ℕ → Result Mm
fixmap k va pa size perm = fix_pages (rounds va size) k (page_round_down va) pa perm

-- One round of munmap: false where nothing is mapped.
abbrev unmap_at : Mm → ℕ → Result (Bool × Mm)
unmap_at k entry =
    if present (k.mem entry)
    then (free k (entry_addr (k.mem entry)) >>= λ k'.
        ok (true, record k' { mem = store k'.mem entry (entry_addr (k'.mem entry)) }))
    else ok (false, k)

unfoldable pub unmap_page : Mm → ℕ → Result (Bool × Mm)
unmap_page k p = elim (find_entry k p) [ none ↦ ok (false, k) | some entry ↦ unmap_at k entry ]

abbrev when_mapped : Bool × Mm → (Mm → Result (Bool × Mm)) → Result (Bool × Mm)
when_mapped (true, k) next = next k
when_mapped (false, k) next = ok (false, k)

unfoldable pub unmap_pages : ℕ → Mm → ℕ → Result (Bool × Mm)
unmap_pages zero k p = unmap_page k p
unmap_pages (suc n) k p =
    unmap_page k p >>= λ r. when_mapped r (λ k'. unmap_pages n k' (add32 p pgsize))

unfoldable pub munmap : Mm → ℕ → ℕ → Result (Bool × Mm)
munmap k va size = unmap_pages (rounds va size) k (page_round_down va)

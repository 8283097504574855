-- ===== src/Mm/Boot.antt =====
-- mm/mm.go: the memory map of the boot loader, and what Init makes of it. An entry is one of
-- multiboot's MmapEntry; `none` means that the kernel was not started by multiboot.
use eggos.Base.{
  ℕ, ◌+◌, ◌-◌, ◌*◌, ◌%◌, ◌^◌, ◌≤◌, ◌≡◌, true, Option, none, some, List, [], ◌∷◌, ◌++◌, ltb, ◌==◌,
  if◌then◌else◌, Bool-cases, inl, inr, Result, ◌>>=◌, arith,
}
use eggos.Mm.{Mm, pte_pw, alloc, clear_page, free_range, fixmap}

pub record MmapEntry : Type 0 where
  pub addr : ℕ
  pub len : ℕ
  pub kind : ℕ

abbrev pub vmstart : ℕ
vmstart = 2 ^ 30

abbrev pub memstart : ℕ
memstart = 20 * 2 ^ 20

abbrev pub default_memtop : ℕ
default_memtop = 256 * 2 ^ 20

-- e.Addr + e.Len is a uint64.
abbrev pub entry_top : MmapEntry → ℕ
entry_top e = let ptop = (e.addr + e.len) % 2 ^ 64 in if ltb vmstart ptop then vmstart else ptop

-- The loop of findMemTop, with the top found so far.
unfoldable pub top_of : ℕ → List MmapEntry → ℕ
top_of top [] = top
top_of top (e ∷ es) =
    top_of (if e.kind == 1 then (if ltb top (entry_top e) then entry_top e else top) else top) es

unfoldable pub find_mem_top : Option (List MmapEntry) → ℕ
unfolding top_of
find_mem_top none = default_memtop
find_mem_top (some es) = if top_of 0 es == 0 then default_memtop else top_of 0 es

-- Init, without the switch of the processor to the new table.
unfoldable pub init : Mm → Option (List MmapEntry) → Result Mm
unfolding find_mem_top
init k boot_info = do
  let top = find_mem_top boot_info
  k₁ ← free_range (record k { memtop = top; voffset = vmstart }) memstart top
  r ← alloc k₁
  fixmap (record r.1 { pgdir = r.0; mem = clear_page r.1.mem r.0 }) 4096 4096 (top - 4096) pte_pw

abbrev top_with : ℕ → MmapEntry → ℕ
top_with top e = if e.kind == 1 then (if ltb top (entry_top e) then entry_top e else top) else top

top_with-le : (top : ℕ) (e : MmapEntry) → top ≤ top_with top e
top_with-le top e = ground arith

top_with_entry : (top : ℕ) (e : MmapEntry) → (e.kind == 1) ≡ true → entry_top e ≤ top_with top e
top_with_entry top e h = ground arith

top_with-vmstart : (top : ℕ) (e : MmapEntry) → top ≤ vmstart → top_with top e ≤ vmstart
top_with-vmstart top e h = ground arith

top_of-le : (top : ℕ) (es : List MmapEntry) → top ≤ top_of top es
unfolding top_of
top_of-le top [] = omega arith
top_of-le top (e ∷ es) = omega (arith, top_with-le top e, top_of-le (top_with top e) es)

top_of-vmstart : (top : ℕ) (es : List MmapEntry) → top ≤ vmstart → top_of top es ≤ vmstart
unfolding top_of
top_of-vmstart top [] h = h
top_of-vmstart top (e ∷ es) h = top_of-vmstart (top_with top e) es (top_with-vmstart top e h)

top_of-entry :
    (top : ℕ) (before : List MmapEntry) (e : MmapEntry) (after : List MmapEntry)
    → (e.kind == 1) ≡ true
    → entry_top e ≤ top_of top (before ++ (e ∷ after))
unfolding top_of
top_of-entry top [] e after h =
    omega (arith, top_with_entry top e h, top_of-le (top_with top e) after)
top_of-entry top (b ∷ before) e after h = top_of-entry (top_with top b) before e after h

-- Wherever an available region stands in the memory map, memtop is not below its end, cut off at
-- the start of the virtual addresses, and memtop is never above that start.
pub find_mem_top-le :
    (before : List MmapEntry) (e : MmapEntry) (after : List MmapEntry)
    → (e.kind == 1) ≡ true
    → (entry_top e ≤ find_mem_top (some (before ++ (e ∷ after))))
      × (find_mem_top (some (before ++ (e ∷ after))) ≤ vmstart)
unfolding find_mem_top
find_mem_top-le before e after h =
    let inside = top_of-entry 0 before e after h in
    let below = top_of-vmstart 0 (before ++ (e ∷ after)) (omega arith) in
    elim (Bool-cases (top_of 0 (before ++ (e ∷ after)) == 0)) [
      | inl z ↦ rw z (ground (arith, inside, z), omega arith)
      | inr z ↦ rw z (inside, below)
    ]

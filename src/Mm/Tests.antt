-- ===== src/Mm/Tests.antt =====
-- The memory theorems at a machine with its directory at 4096, the page table of 2 ^ 30 at 8192
-- with its second page mapped to 16384, and one free page at 12288.
use eggos.Base.{
  ℕ, ◌+◌, ◌%◌, ◌^◌, ◌≤◌, ◌≡◌, refl, false, none, some, List, [], ◌∷◌, ◌==◌, if◌then◌else◌, ok,
  panic, ◌>>=◌, arith,
}
use eggos.Mm.{
  Mm, pgsize, pte_pw, alloc, free_pages, free, free_range, map_page, walk, mmap, map_pages,
  unmap_page, find_entry, munmap, unmap_pages,
}
use eggos.Mm.Boot.{MmapEntry, entry_top, top_of, find_mem_top, vmstart, init, find_mem_top-le}
use eggos.Mm.Translate.{translate, translate_at, CanMap, HasTable, map_page-translate}

abbrev machine : Mm
machine = record {
  mem = λ a. if a == 5120 then 8195 else if a == 8196 then 16387 else 0;
  memtop = 65536;
  freelist = 12288;
  voffset = 2 ^ 30;
  allocs = 0;
  pgdir = 4096;
}

abbrev empty_list : Mm
empty_list = record machine { freelist = 0 }

mapped_twice_test : (mmap machine (2 ^ 30 + 4096) 4096 pte_pw) ≡ panic
unfolding mmap map_pages map_page walk
mapped_twice_test = refl

unmapped_test :
    (munmap machine (2 ^ 30 + 4096) 4096 >>= λ r. ok (translate r.1 (2 ^ 30 + 5000))) ≡ ok none
unfolding munmap unmap_pages unmap_page find_entry free translate translate_at
unmapped_test = refl

no_page_test : (munmap machine (2 ^ 30) 4096 >>= λ r. ok r.0) ≡ ok false
unfolding munmap unmap_pages unmap_page find_entry
no_page_test = refl

target-HasTable : HasTable machine (2 ^ 30) 8192
target-HasTable = record { table = refl; slot = refl }

machine-CanMap : CanMap machine (2 ^ 30) 8192 12288 []
machine-CanMap = record {
  target = target-HasTable;
  vacant = refl;
  pages = (refl, omega arith, refl);
  aligned = refl;
  dir_outside = refl;
  dir_other = omega arith;
}

map_page-translate_example :
    (k' : Mm) × (map_page machine (2 ^ 30) pte_pw ≡ ok k')
    × (translate k' (2 ^ 30 + 70) ≡ some (12288 + (2 ^ 30 + 70) % pgsize))
    × (translate k' (2 ^ 30 + 5000) ≡ translate machine (2 ^ 30 + 5000))
unfolding find_entry
map_page-translate_example =
    map_page-translate machine (2 ^ 30) 8192 12288 [] (2 ^ 30 + 70) (2 ^ 30 + 5000) machine-CanMap
      refl refl (omega arith) (refl, omega arith)

abbrev region : ℕ → ℕ → ℕ → MmapEntry
region kind addr len = record { addr = addr; len = len; kind = kind }

-- 640 KiB, a reserved hole, and memory up to 21 MiB.
abbrev memory_map : List MmapEntry
memory_map = region 1 0 655360 ∷ region 2 655360 393216 ∷ region 1 1048576 20971520 ∷ []

find_mem_top_test : find_mem_top (some memory_map) ≡ 22020096
unfolding find_mem_top top_of
find_mem_top_test = refl

-- With memory up to 20 MiB only, no page is free and Init panics.
small_memory_test : init empty_list (some (region 1 0 20971520 ∷ [])) ≡ panic
unfolding init free_range free_pages alloc find_mem_top top_of
small_memory_test = refl

find_mem_top-le_example :
    (entry_top (region 1 0 655360) ≤ find_mem_top (some memory_map))
    × (find_mem_top (some memory_map) ≤ vmstart)
find_mem_top-le_example =
    find_mem_top-le [] (region 1 0 655360) (region 2 655360 393216 ∷ region 1 1048576 20971520 ∷ [])
      refl

-- ===== src/Mm/Pool/Tests.antt =====
-- A pool of blocks of 1500 bytes, of which two fit into a page.
use eggos.Base.{◌≡◌, ◌^◌, refl, [], ◌∷◌, ok, ◌==◌, if◌then◌else◌, arith, inl}
use eggos.Mm.{Mm}
use eggos.Mm.FreeList.{Chain}
use eggos.Mm.Pool.{Pool, pool_init, pool_alloc}
use eggos.Mm.Pool.Blocks.{pool_alloc-Chain}

abbrev one_page : Mm
one_page = record {
  mem = λ a. if a == 8192 then 16384 else 7;
  memtop = 65536;
  freelist = 8192;
  voffset = 2 ^ 30;
  allocs = 0;
  pgdir = 4096;
}

abbrev small_pool : Pool
small_pool = record { size = 1500; head = 0 }

abbrev two_blocks : Mm
two_blocks = record one_page { mem = λ a. if a == 9692 then 8192 else if a == 8192 then 0 else 7 }

init_test : pool_init small_pool 1498 ≡ small_pool
unfolding pool_init
init_test = refl

pool_alloc-Chain_example :
    (s : Pool × Mm) × (pool_alloc (record small_pool { head = 9692 }, two_blocks) ≡ ok (9692, s))
    × Chain s.1.mem s.0.head (8192 ∷ [])
    × (s.1.mem 9700 ≡ 0)
pool_alloc-Chain_example =
    pool_alloc-Chain (record small_pool { head = 9692 }) two_blocks 9692 (8192 ∷ []) 9700
      (omega arith) (refl, omega arith, (refl, omega arith, refl)) (inl (omega arith), tt)
      (omega arith) (omega arith)

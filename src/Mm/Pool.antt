-- ===== src/Mm/Pool.antt =====
-- mm/pool.go: blocks of one size, cut from pages. The free blocks are a chain: the first word of
-- each is the address of the next. A pool is used with a size above 0.
pub mod Blocks
pub mod Tests
use eggos.Base.{
  ℕ, zero, suc, ◌+◌, ◌-◌, ◌*◌, ◌/◌, ◌%◌, ◌^◌, leb, ltb, ◌==◌, ◌&&◌, if◌then◌else◌, Result, ok,
  panic, ◌>>=◌,
}
use eggos.Base.Words.{word, add32}
use eggos.Mm.{Mm, pgsize, store, alloc}

pub record Pool : Type 0 where
  pub size : ℕ
  pub head : ℕ

-- PoolInit, which leaves the head as it is.
unfoldable pub pool_init : Pool → ℕ → Pool
pool_init p size = record p { size = add32 size 3 / 4 * 4 }

-- Free
abbrev pub pool_free : Pool × Mm → ℕ → Pool × Mm
pool_free (p, k) ptr = (record p { head = ptr }, record k { mem = store k.mem ptr p.head })

-- The loop of grow from v on, with the blocks that still fit; additions stay below the end of the
-- address space.
unfoldable pub free_blocks : ℕ → Pool × Mm → ℕ → Pool × Mm
free_blocks zero s v = s
free_blocks (suc n) s v = free_blocks n (pool_free s v) (v + s.0.size)

-- grow: a block fits while it ends at or before the end of the page.
unfoldable pub grow : Pool × Mm → Result (Pool × Mm)
unfolding free_blocks
grow (p, k) = alloc k >>= λ r. ok (free_blocks (pgsize / p.size) (p, r.1) r.0)

-- sys.Memclr(ptr, size)
abbrev pub clear_block : (ℕ → ℕ) → ℕ → ℕ → ℕ → ℕ
clear_block mem ptr size a = if leb ptr a && ltb a (ptr + size) then 0 else mem a

-- The end of Alloc; a pool without a block has none to take.
unfoldable pub take_block : Pool × Mm → Result (ℕ × (Pool × Mm))
take_block (p, k) =
    if p.head == 0
    then panic
    else ok (
      p.head,
      (record p { head = k.mem p.head }, record k { mem = clear_block k.mem p.head p.size }),
    )

-- Alloc
unfoldable pub pool_alloc : Pool × Mm → Result (ℕ × (Pool × Mm))
unfolding grow take_block
pool_alloc (p, k) = if p.head == 0 then grow (p, k) >>= take_block else take_block (p, k)

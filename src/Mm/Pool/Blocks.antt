-- ===== src/Mm/Pool/Blocks.antt =====
-- The free blocks of a pool stay a chain.
use eggos.Base.{
  ℕ, zero, suc, ◌+◌, ◌/◌, ◌<◌, ◌≤◌, ◌≡◌, ◌≢◌, refl, sym, ap, subst, false, List, [], ◌∷◌, ◌==◌, ok,
  ◌>>=◌, arith, inl, inr, ◌⊎◌,
}
use eggos.Mm.{Mm, pgsize, store}
use eggos.Mm.FreeList.{Chain, Chain-store, store_self, member, alloc_some}
use eggos.Mm.Pool.{Pool, free_blocks, grow, clear_block, take_block, pool_alloc}

-- Blocks that all start below an address.
abbrev pub Below : ℕ → List ℕ → Type 0
Below v [] = Unit
Below v (b ∷ bs) = (b < v) × Below v bs

member-Below : (v : ℕ) (bs : List ℕ) → Below v bs → member v bs ≡ false
unfolding member
member-Below v [] h = refl
member-Below v (b ∷ bs) (lt, h) = ground (arith, lt, member-Below v bs h)

Below-le : (v v' : ℕ) (bs : List ℕ) → v ≤ v' → Below v bs → Below v' bs
Below-le v v' [] h b = b
Below-le v v' (x ∷ bs) h (lt, b) = (omega (arith, lt, h), Below-le v v' bs h b)

-- Blocks of the given size from v on, the last one first, in front of others.
unfoldable pub blocks_from : ℕ → ℕ → ℕ → List ℕ → List ℕ
blocks_from size zero v bs = bs
blocks_from size (suc n) v bs = blocks_from size n (v + size) (v ∷ bs)

IsChain : Pool × Mm → List ℕ → Type 0
IsChain (p, k) bs = Chain k.mem p.head bs

free_blocks-Chain :
    (n : ℕ) (p : Pool) (k : Mm) (v : ℕ) (bs : List ℕ)
    → 0 < p.size
    → v ≢ 0
    → Below v bs
    → Chain k.mem p.head bs
    → let s = free_blocks n (p, k) v in
      Chain s.1.mem s.0.head (blocks_from p.size n v bs)
      × (s.0.size ≡ p.size)
      × (s.1.freelist ≡ k.freelist)
unfolding free_blocks blocks_from
free_blocks-Chain zero p k v bs h ne below chain = (chain, refl, refl)
free_blocks-Chain (suc n) p k v bs h ne below chain =
    let under = Chain-store k.mem v p.head p.head bs (member-Below v bs below) chain in
    let here =
      subst (λ x. Chain (store k.mem v p.head) x bs) (sym (store_self k.mem v p.head)) under in
    free_blocks-Chain n (record p { head = v }) (record k { mem = store k.mem v p.head })
      (v + p.size) (v ∷ bs) h (omega (arith, ne))
      (omega (arith, h), Below-le v (v + p.size) bs (omega arith) below) (refl, ne, here)

-- An empty pool that grows, while a page is free, has as its chain of blocks all that fit into the
-- first free page, one behind another, and the page is gone from the free list.
pub grow-Chain :
    (p : Pool) (k : Mm)
    → p.head ≡ 0
    → 0 < p.size
    → k.freelist ≢ 0
    → (s : Pool × Mm) × (grow (p, k) ≡ ok s)
      × Chain s.1.mem s.0.head (blocks_from p.size (pgsize / p.size) k.freelist [])
      × (s.1.freelist ≡ k.mem k.freelist)
unfolding grow
grow-Chain p k empty h ne =
    let k' : Mm = record k { allocs = k.allocs + 1; freelist = k.mem k.freelist } in
    let made = free_blocks-Chain (pgsize / p.size) p k' k.freelist [] h ne tt empty in
    (
      free_blocks (pgsize / p.size) (p, k') k.freelist,
      ap (λ r. r >>= λ x. ok (free_blocks (pgsize / p.size) (p, x.1) x.0)) (alloc_some k ne),
      made.0,
      made.2,
    )

-- Blocks that do not overlap the one at b.
abbrev pub Apart : ℕ → ℕ → List ℕ → Type 0
Apart size b [] = Unit
Apart size b (c ∷ bs) = ((c + size ≤ b) ⊎ (b + size ≤ c)) × Apart size b bs

pub clear_block-Chain :
    (mem : ℕ → ℕ) (size b head : ℕ) (bs : List ℕ)
    → 0 < size
    → Apart size b bs
    → Chain mem head bs
    → Chain (clear_block mem b size) head bs
clear_block-Chain mem size b head [] h apart chain = chain
clear_block-Chain mem size b head (c ∷ bs) h (far, apart) (e, ne, chain) =
    let kept : clear_block mem b size c ≡ mem c = elim far [
      | inl under ↦ ground (arith, h, under)
      | inr over ↦ ground (arith, h, over)
    ] in
    (
      e,
      ne,
      subst (λ x. Chain (clear_block mem b size) x bs) (sym kept)
          (clear_block-Chain mem size b (mem c) bs h apart chain),
    )

-- Alloc of a pool with a free block gives the first one, cleared, when no other free block overlaps
-- it, and the others stay free.
pub pool_alloc-Chain :
    (p : Pool) (k : Mm) (b : ℕ) (bs : List ℕ) (a : ℕ)
    → 0 < p.size
    → Chain k.mem p.head (b ∷ bs)
    → Apart p.size b bs
    → b ≤ a
    → a < b + p.size
    → (s : Pool × Mm) × (pool_alloc (p, k) ≡ ok (b, s))
      × Chain s.1.mem s.0.head bs
      × (s.1.mem a ≡ 0)
unfolding pool_alloc take_block
pool_alloc-Chain p k b bs a h (e, ne, chain) apart low high =
    let there : (b == 0) ≡ false = ground (arith, ne) in
    (
      (record p { head = k.mem b }, record k { mem = clear_block k.mem b p.size }),
      rw (e, there) refl,
      clear_block-Chain k.mem p.size b (k.mem b) bs h apart chain,
      ground (arith, low, high),
    )

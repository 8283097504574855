-- ===== src/E1000/Start/Rings.antt =====
-- The rings that Init makes are what the other functions of the driver expect.
use eggos.Base.{
  ℕ, ◌+◌, ◌*◌, ◌%◌, ◌≡◌, refl, sym, ap, ◌∙◌, true, List, [], ◌∷◌, ◌++◌, length, map, ◌==◌,
  if◌then◌else◌, ok, ◌>>=◌, arith,
}
use eggos.Base.Words.{word}
use eggos.Mm.{Mm, clear_page, alloc_cleared, fixmap, pte_pw}
use eggos.Mm.FreeList.{Chain, alloc_some}
use eggos.Mm.Pool.Blocks.{Apart, clear_block-Chain}
use eggos.E1000.Mac.{Hardware}
use eggos.E1000.Reg
use eggos.E1000.Start.{
  Bar, Ready, ready, alloc_pages, clear_table, all_writes, tail_of, length_of, init,
}

-- Pages that do not overlap.
abbrev pub AllApart : List ℕ → Type 0
AllApart [] = Unit
AllApart (p ∷ ps) = Apart 4096 p ps × AllApart ps

-- What a register holds behind a list of writes: the last value, or `before`.
unfoldable pub last_write : ℕ → List (ℕ × ℕ) → ℕ → ℕ
last_write reg [] before = before
last_write reg ((r, v) ∷ ws) before = last_write reg ws (if reg == r then v else before)

-- The free list is these pages.
abbrev pub HasPages : Mm → List ℕ → Type 0
HasPages k ps = Chain k.mem k.freelist ps × AllApart ps

alloc_cleared-page :
    (k : Mm) (p : ℕ) (ps : List ℕ)
    → HasPages k (p ∷ ps)
    → (k' : Mm) × (alloc_cleared k ≡ ok (p, k')) × HasPages k' ps
unfolding alloc_cleared
alloc_cleared-page k p ps ((e, ne, chain), (apart, rest)) =
    let taken = alloc_some k (λ z. ne (sym e ∙ z)) in
    let after : ℕ → Mm =
      λ x. record k { mem = clear_page k.mem x; freelist = k.mem x; allocs = k.allocs + 1 } in
    (
      after p,
      ap (λ r. r >>= λ x. ok (x.0, record x.1 { mem = clear_page x.1.mem x.0 })) taken
          ∙ ap (λ x. ok (x, after x)) e,
      (clear_block-Chain k.mem 4096 p (k.mem p) ps (omega arith) apart chain, rest),
    )

alloc_pages-pages :
    (ps : List ℕ) (k : Mm) (rest : List ℕ)
    → HasPages k (ps ++ rest)
    → (k' : Mm) × (alloc_pages (length ps) k ≡ ok (ps, k')) × HasPages k' rest
unfolding alloc_pages
alloc_pages-pages [] k rest h = (k, refl, h)
alloc_pages-pages (p ∷ ps) k rest h =
    let first = alloc_cleared-page k p (ps ++ rest) h in
    let others = alloc_pages-pages ps first.0 rest first.2 in
    (others.0, rw (first.1, others.1) refl, others.2)

-- What the card is told of its rings: where each starts, its length, and its tail.
abbrev pub HasRing : ℕ → List (ℕ × ℕ) → ℕ → ℕ → Type 0
HasRing base writes ring tail =
    (last_write base writes 0 ≡ ring)
    × (last_write (length_of base) writes 0 ≡ 512)
    × (last_write (tail_of base) writes 0 ≡ tail)

all_writes-HasRing :
    (ctrl ctrl' rx tx : ℕ)
    → HasRing Reg.rdbal (all_writes ctrl ctrl' rx tx) (rx % word) 31
      × HasRing Reg.tdbal (all_writes ctrl ctrl' rx tx) (tx % word) 0
unfolding last_write clear_table
all_writes-HasRing ctrl ctrl' rx tx = ((refl, refl, refl), (refl, refl, refl))

-- Init with the memory mapped and the pages at hand.
init-steps :
    (k k1 k2 k3 k4 : Mm) (bar : Bar) (ctrl ctrl' : ℕ) (hardware : Hardware) (page : ℕ)
    (rx tx : List ℕ)
    → bar.ismem ≡ true
    → fixmap k (bar.addr % word) (bar.addr % word) (bar.len % word) pte_pw ≡ ok k1
    → alloc_cleared k1 ≡ ok (page, k2)
    → alloc_pages 32 k2 ≡ ok (rx, k3)
    → alloc_pages 32 k3 ≡ ok (tx, k4)
    → page % 16 ≡ 0
    → init k bar ctrl ctrl' hardware ≡ ok (ready ctrl ctrl' hardware page rx tx, k4)
unfolding init
init-steps k k1 k2 k3 k4 bar ctrl ctrl' hardware page rx tx mem mapped first second third even =
    let low : (page % 16 == 0) ≡ true = ground (arith, even) in
    let high : ((page + 33 * 16) % 16 == 0) ≡ true = ground (arith, even) in
    rw (mem, mapped, first, second, low, third, high) refl

-- When BAR 0 is memory that can be mapped, and the free list has 65 pages that do not overlap: Init
-- gives the first page to the rings and one page to each of the 64 descriptors, in order, with
-- those for sending free, leaves the rest of the free list, and tells the card both rings, which lie one behind the other in
-- the first page, with the tail of the receive ring at its last descriptor and that of the
-- transmit ring at its first.
pub init-Ready :
    (k k1 : Mm) (bar : Bar) (ctrl ctrl' : ℕ) (hardware : Hardware) (page : ℕ) (rx tx rest : List ℕ)
    → bar.ismem ≡ true
    → fixmap k (bar.addr % word) (bar.addr % word) (bar.len % word) pte_pw ≡ ok k1
    → HasPages k1 (page ∷ (rx ++ (tx ++ rest)))
    → length rx ≡ 32
    → length tx ≡ 32
    → page % 4096 ≡ 0
    → (s : Ready) × (k' : Mm) × (init k bar ctrl ctrl' hardware ≡ ok (s, k'))
      × ((s.rx_pages ≡ rx) × (s.tx_descs ≡ map (λ p. (p, 1)) tx))
      × (HasRing Reg.rdbal s.writes (page % word) 31
          × HasRing Reg.tdbal s.writes ((page + 528) % word) 0)
      × Chain k'.mem k'.freelist rest
unfolding ready
init-Ready k k1 bar ctrl ctrl' hardware page rx tx rest mem mapped pages lr lt even =
    let first = alloc_cleared-page k1 page (rx ++ (tx ++ rest)) pages in
    let second = alloc_pages-pages rx first.0 (tx ++ rest) first.2 in
    let third = alloc_pages-pages tx second.0 rest second.2 in
    (
      ready ctrl ctrl' hardware page rx tx,
      third.0,
      init-steps k k1 first.0 second.0 third.0 bar ctrl ctrl' hardware page rx tx mem mapped first.1
          (ap (λ n. alloc_pages n first.0) (sym lr) ∙ second.1)
          (ap (λ n. alloc_pages n second.0) (sym lt) ∙ third.1) (omega (arith, even)),
      (refl, refl),
      all_writes-HasRing ctrl ctrl' page (page + 528),
      third.2.0,
    )

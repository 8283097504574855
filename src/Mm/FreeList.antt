-- ===== src/Mm/FreeList.antt =====
-- mm/mm.go: the free list, a chain of pages each of which holds the address of the next.
use eggos.Base.{
  ℕ, zero, suc, ◌+◌, ◌-◌, ◌*◌, ◌/◌, ◌%◌, ◌≤◌, ◌<◌, ◌≡◌, ◌≢◌, refl, sym, ap, ◌∙◌, subst, Bool, true,
  false, List, [], ◌∷◌, ◌||◌, ltb, ◌&&◌, ◌^◌, ◌==◌, ok, ◌>>=◌, arith,
}
use eggos.Mm.{Mm, pgsize, page_round_up, store, alloc, free, free_pages, free_range}

-- The list that starts at `head` is these pages, none of them at 0.
abbrev pub Chain : (ℕ → ℕ) → ℕ → List ℕ → Type 0
Chain mem head [] = head ≡ 0
Chain mem head (p ∷ ps) = (head ≡ p) × (p ≢ 0) × Chain mem (mem p) ps

unfoldable pub member : ℕ → List ℕ → Bool
member p [] = false
member p (q ∷ ps) = p == q || member p ps

pub store_self : (mem : ℕ → ℕ) (p v : ℕ) → store mem p v p ≡ v
store_self mem p v = ground arith

store_other : (mem : ℕ → ℕ) (p v q : ℕ) → (p == q) ≡ false → store mem p v q ≡ mem q
store_other mem p v q h = ground arith

member-cons :
    (p q : ℕ) (ps : List ℕ) → member p (q ∷ ps) ≡ false → ((p == q) ≡ false) × (member p ps ≡ false)
unfolding member
member-cons p q ps h = (ground arith, ground arith)

pub Chain-store :
    (mem : ℕ → ℕ) (p v head : ℕ) (ps : List ℕ)
    → member p ps ≡ false
    → Chain mem head ps
    → Chain (store mem p v) head ps
Chain-store mem p v head [] h c = c
Chain-store mem p v head (q ∷ ps) h (e, ne, c) =
    let (differ, rest) = member-cons p q ps h in
    (
      e,
      ne,
      subst (λ x. Chain (store mem p v) x ps) (sym (store_other mem p v q differ))
          (Chain-store mem p v (mem q) ps rest c),
    )

pub alloc_some :
    (k : Mm)
    → k.freelist ≢ 0
    → alloc k ≡ ok (k.freelist, record k { allocs = k.allocs + 1; freelist = k.mem k.freelist })
unfolding alloc
alloc_some k ne = ground arith

-- Taking the first page of the free list leaves the others on it.
pub alloc-Chain :
    (k : Mm) (p : ℕ) (ps : List ℕ)
    → Chain k.mem k.freelist (p ∷ ps)
    → (k' : Mm) × (alloc k ≡ ok (p, k')) × Chain k'.mem k'.freelist ps
alloc-Chain k p ps (e, ne, c) = (
  after,
  alloc_some k (λ z. ne (sym e ∙ z)) ∙ ap (λ x. ok (x, after)) e,
  subst (λ x. Chain k.mem (k.mem x) ps) (sym e) c,
)
  where
    after : Mm
    after = record k { allocs = k.allocs + 1; freelist = k.mem k.freelist }

-- free puts an aligned page below memtop that is not on the free list in front of it.
pub free-Chain :
    (k : Mm) (p : ℕ) (ps : List ℕ)
    → p % pgsize ≡ 0
    → p < k.memtop
    → p ≢ 0
    → member p ps ≡ false
    → Chain k.mem k.freelist ps
    → (free k p ≡ ok (record k { mem = store k.mem p k.freelist; freelist = p }))
      × Chain (store k.mem p k.freelist) p (p ∷ ps)
unfolding free
free-Chain k p ps aligned below ne fresh c = (
  ground arith,
  (
    refl,
    ne,
    subst (λ x. Chain (store k.mem p k.freelist) x ps) (sym (store_self k.mem p k.freelist))
        (Chain-store k.mem p k.freelist k.freelist ps fresh c),
  ),
)

-- The pages that n rounds of freeRange from p on put in front of ps.
abbrev pub freed : ℕ → ℕ → List ℕ → List ℕ
freed zero p ps = ps
freed (suc n) p ps = freed n (p + pgsize) (p ∷ ps)

-- All pages of the list lie below p.
unfoldable pub all_under : ℕ → List ℕ → Bool
all_under p [] = true
all_under p (q ∷ ps) = ltb q p && all_under p ps

all_under-next : (p q : ℕ) (ps : List ℕ) → p < q → all_under p ps ≡ true → all_under q ps ≡ true
unfolding all_under
all_under-next p q [] h u = refl
all_under-next p q (r ∷ ps) h u = ground (arith, all_under-next p q ps h)

all_under-cons :
    (p : ℕ) (ps : List ℕ) → all_under p ps ≡ true → all_under (p + pgsize) (p ∷ ps) ≡ true
unfolding all_under
all_under-cons p ps u = ground (arith, all_under-next p (p + pgsize) ps (omega arith) u)

all_under-fresh : (p : ℕ) (ps : List ℕ) → all_under p ps ≡ true → member p ps ≡ false
unfolding all_under member
all_under-fresh p [] u = refl
all_under-fresh p (q ∷ ps) u = ground (arith, all_under-fresh p ps)

free_pages-Chain :
    (n p : ℕ) (k : Mm) (ps : List ℕ)
    → p % pgsize ≡ 0
    → p ≢ 0
    → p + n * pgsize ≤ k.memtop
    → all_under p ps ≡ true
    → Chain k.mem k.freelist ps
    → (k' : Mm) × (free_pages n p k ≡ ok k') × Chain k'.mem k'.freelist (freed n p ps)
unfolding free_pages
free_pages-Chain zero p k ps aligned ne room u c = (k, refl, c)
free_pages-Chain (suc n) p k ps aligned ne room u c =
    let (runs, chain) = free-Chain k p ps aligned (omega arith) ne (all_under-fresh p ps u) c in
    let k₁ : Mm = record k { mem = store k.mem p k.freelist; freelist = p } in
    let (k', e, c') =
      free_pages-Chain n (p + pgsize) k₁ (p ∷ ps) (omega arith) (omega arith) (omega arith)
        (all_under-cons p ps u) chain in
    (k', ap (λ m. m >>= free_pages n (p + pgsize)) runs ∙ e, c')

-- Started with an empty free list, freeRange does not panic on a range behind page 0 and below
-- memtop that holds a page boundary, and leaves exactly the whole pages of the range on the list, the last one first.
pub free_range-Chain :
    (k : Mm) (start end : ℕ)
    → k.freelist ≡ 0
    → 0 < start
    → start < 2 ^ 31
    → page_round_up start ≤ end
    → end ≤ k.memtop
    → (k' : Mm) × (free_range k start end ≡ ok k')
      × Chain k'.mem k'.freelist
          (freed ((end - page_round_up start) / pgsize) (page_round_up start) [])
unfolding free_range all_under
free_range-Chain k start end empty low order inside top =
    free_pages-Chain ((end - page_round_up start) / pgsize) (page_round_up start) k [] (omega arith)
      (omega arith) (omega arith) refl empty

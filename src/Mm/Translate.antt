-- ===== src/Mm/Translate.antt =====
-- mm/mm.go: what mapping a page does to the translation of addresses.
use eggos.Base.{
  ℕ, ◌+◌, ◌*◌, ◌/◌, ◌%◌, ◌^◌, ◌≡◌, ◌≢◌, refl, sym, ap, ◌∙◌, Bool, true, false, bit_or, Option, none,
  some, List, ◌∷◌, ◌||◌, leb, ltb, if◌then◌else◌, ok, ◌>>=◌, arith,
}
use eggos.Base.Bits.{bit_or-add, bit_and-one}
use eggos.Mm.{
  Mm, pgsize, pte_pw, store, clear_page, alloc, present, entry_addr, dir_slot, page_dir_idx,
  tab_slot, page_tab_idx, find_entry, walk, map_fresh, map_at, map_page,
}
use eggos.Mm.FreeList.{Chain, alloc_some}

-- The physical address that the processor takes for va.
unfoldable pub translate_at : Mm → ℕ → Option ℕ → Option ℕ
translate_at k va none = none
translate_at k va (some entry) =
    if present (k.mem entry) then some (entry_addr (k.mem entry) + va % pgsize) else none

unfoldable pub translate : Mm → ℕ → Option ℕ
translate k va = translate_at k va (find_entry k va)

-- The page table of va is there, and its entry is at `entry`.
pub record HasTable (k : Mm) (va entry : ℕ) : Type 0 where
  pub table : present (k.mem (dir_slot k va)) ≡ true
  pub slot : entry ≡ tab_slot (k.mem (dir_slot k va)) va

-- The word at a is not in the page at p.
abbrev pub outside : ℕ → ℕ → Bool
outside p a = ltb a p || leb (p + pgsize) a

abbrev entry_of : ℕ → ℕ
entry_of p = bit_or p pte_pw

entry_of-eq : (p : ℕ) → p % pgsize ≡ 0 → entry_of p ≡ p + 3
entry_of-eq p h =
    ap (λ x. bit_or x 3) shifted ∙ bit_or-add 12 (p / pgsize) 3 (omega arith) ∙ omega arith
  where
    shifted : p ≡ p / pgsize * 2 ^ 12
    shifted = omega arith

entry_of-present : (p : ℕ) → p % pgsize ≡ 0 → present (entry_of p) ≡ true
entry_of-present p h = ap present (entry_of-eq p h) ∙ ground (arith, bit_and-one (p + 3))

entry_of-addr : (p : ℕ) → p % pgsize ≡ 0 → entry_addr (entry_of p) ≡ p
entry_of-addr p h = ap entry_addr (entry_of-eq p h) ∙ omega arith

find_entry-HasTable : (k : Mm) (va entry : ℕ) → HasTable k va entry → find_entry k va ≡ some entry
unfolding find_entry
find_entry-HasTable k va entry t = rw (t.table, t.slot) refl

walk-HasTable : (k : Mm) (va entry : ℕ) → HasTable k va entry → walk k va ≡ ok (entry, k)
unfolding walk
walk-HasTable k va entry t = rw (t.table, t.slot) refl

-- The memory after a page is cleared and an entry written.
abbrev written : (ℕ → ℕ) → ℕ → ℕ → ℕ → ℕ
written mem p entry = store (clear_page mem p) entry (entry_of p)

written-other :
    (mem : ℕ → ℕ) (p entry a : ℕ) → outside p a ≡ true → a ≢ entry → written mem p entry a ≡ mem a
written-other mem p entry a h ne = ground arith

dir-written :
    (k k' : Mm) (p entry vb : ℕ)
    → k'.mem ≡ written k.mem p entry
    → k'.pgdir ≡ k.pgdir
    → outside p (dir_slot k vb) ≡ true
    → dir_slot k vb ≢ entry
    → k'.mem (dir_slot k' vb) ≡ k.mem (dir_slot k vb)
dir-written k k' p entry vb m d o ne =
    ap (λ x. k'.mem (x + 4 * page_dir_idx vb)) d
    ∙ ap (λ (f : ℕ → ℕ). f (dir_slot k vb)) m
    ∙ written-other k.mem p entry (dir_slot k vb) o ne

HasTable-written :
    (k k' : Mm) (vb other : ℕ)
    → k'.mem (dir_slot k' vb) ≡ k.mem (dir_slot k vb)
    → HasTable k vb other
    → HasTable k' vb other
HasTable-written k k' vb other same t = record {
  table = ap present same ∙ t.table;
  slot = t.slot ∙ ap (λ e. tab_slot e vb) (sym same);
}

find_entry-written :
    (k k' : Mm) (vb : ℕ)
    → k'.mem (dir_slot k' vb) ≡ k.mem (dir_slot k vb)
    → find_entry k' vb ≡ find_entry k vb
unfolding find_entry
find_entry-written k k' vb same = ap (λ e. if present e then some (tab_slot e vb) else none) same

-- Two addresses of one page have the same entry.
HasTable-page :
    (k : Mm) (va vc entry : ℕ)
    → vc / pgsize ≡ va / pgsize
    → HasTable k va entry
    → HasTable k vc entry
HasTable-page k va vc entry h t =
    let dir : page_dir_idx vc ≡ page_dir_idx va = omega (arith, h) in
    let tab : page_tab_idx vc ≡ page_tab_idx va = omega (arith, h) in
    record {
      table = ap (λ i. present (k.mem (k.pgdir + 4 * i))) dir ∙ t.table;
      slot =
          t.slot
          ∙ ap (λ i. entry_addr (k.mem (dir_slot k va)) + 4 * i) (sym tab)
          ∙ ap (λ i. entry_addr (k.mem (k.pgdir + 4 * i)) + 4 * page_tab_idx vc) (sym dir);
    }

translate-HasTable :
    (k : Mm) (va entry : ℕ) → HasTable k va entry → translate k va ≡ translate_at k va (some entry)
unfolding translate
translate-HasTable k va entry t = ap (translate_at k va) (find_entry-HasTable k va entry t)

translate_at-mem :
    (k k' : Mm) (va entry : ℕ)
    → k'.mem entry ≡ k.mem entry
    → translate_at k' va (some entry) ≡ translate_at k va (some entry)
unfolding translate_at
translate_at-mem k k' va entry same =
    ap (λ e. if present e then some (entry_addr e + va % pgsize) else none) same

translate_at-new :
    (k : Mm) (va entry p : ℕ)
    → p % pgsize ≡ 0
    → k.mem entry ≡ entry_of p
    → translate_at k va (some entry) ≡ some (p + va % pgsize)
unfolding translate_at
translate_at-new k va entry p aligned e =
    ap (λ x. if present x then some (entry_addr x + va % pgsize) else none) e
    ∙ ap (λ b. if b then some (entry_addr (entry_of p) + va % pgsize) else none)
        (entry_of-present p aligned)
    ∙ ap (λ a. some (a + va % pgsize)) (entry_of-addr p aligned)

map_at-free :
    (k : Mm) (entry : ℕ)
    → present (k.mem entry) ≡ false
    → map_at pte_pw (entry, k) ≡ map_fresh k entry pte_pw
map_at-free k entry h = rw h refl

map_fresh-alloc :
    (k k₁ : Mm) (p entry : ℕ)
    → alloc k ≡ ok (p, k₁)
    → map_fresh k entry pte_pw ≡ ok (record k₁ { mem = written k₁.mem p entry })
unfolding map_fresh
map_fresh-alloc k k₁ p entry e = rw e refl

-- The page of va has its page table, at a free entry, and the free list starts with the page p,
-- in which neither the directory nor the table lies.
pub record CanMap (k : Mm) (va entry p : ℕ) (ps : List ℕ) : Type 0 where
  pub target : HasTable k va entry
  pub vacant : present (k.mem entry) ≡ false
  pub pages : Chain k.mem k.freelist (p ∷ ps)
  pub aligned : p % pgsize ≡ 0
  pub dir_outside : outside p (dir_slot k va) ≡ true
  pub dir_other : dir_slot k va ≢ entry

map_page-runs :
    (k : Mm) (va entry p : ℕ) (ps : List ℕ)
    → CanMap k va entry p ps
    → map_page k va pte_pw
      ≡ ok (record k {
        mem = written k.mem p entry;
        allocs = k.allocs + 1;
        freelist = k.mem k.freelist;
      })
unfolding map_page
map_page-runs k va entry p ps c =
    ap (λ m. m >>= map_at pte_pw) (walk-HasTable k va entry c.target)
    ∙ map_at-free k entry c.vacant
    ∙ map_fresh-alloc k after p entry
        (alloc_some k (λ z. c.pages.1 (sym c.pages.0 ∙ z)) ∙ ap (λ x. ok (x, after)) c.pages.0)
  where
    after : Mm
    after = record k { allocs = k.allocs + 1; freelist = k.mem k.freelist }

-- The entry of an address, if its page table is there, lies outside p and is not `entry`.
abbrev pub IsAway : ℕ → ℕ → Option ℕ → Type 0
IsAway p entry none = Unit
IsAway p entry (some other) = (outside p other ≡ true) × (other ≢ entry)

translate_at-away :
    (k k' : Mm) (p entry vb : ℕ) (found : Option ℕ)
    → k'.mem ≡ written k.mem p entry
    → IsAway p entry found
    → translate_at k' vb found ≡ translate_at k vb found
unfolding translate_at
translate_at-away k k' p entry vb none m a = refl
translate_at-away k k' p entry vb (some other) m a =
    translate_at-mem k k' vb other
      (ap (λ (f : ℕ → ℕ). f other) m ∙ written-other k.mem p entry other a.0 a.1)

-- Mapping a page, whose page table is there, returns. It then translates every address vc of the
-- page of va into the page p, and leaves alone the translation of every address vb, mapped or not,
-- of which the word in the directory and the entry, if it has a page table, are not the new entry
-- and do not lie in p.
pub map_page-translate :
    (k : Mm) (va entry p : ℕ) (ps : List ℕ) (vc vb : ℕ)
    → CanMap k va entry p ps
    → vc / pgsize ≡ va / pgsize
    → outside p (dir_slot k vb) ≡ true
    → dir_slot k vb ≢ entry
    → IsAway p entry (find_entry k vb)
    → (k' : Mm) × (map_page k va pte_pw ≡ ok k')
      × (translate k' vc ≡ some (p + vc % pgsize))
      × (translate k' vb ≡ translate k vb)
unfolding translate
map_page-translate k va entry p ps vc vb c same dir_out dir_ne away = (
  k',
  map_page-runs k va entry p ps c,
  translate-HasTable k' vc entry (
        HasTable-page k' va vc entry same (
          HasTable-written k k' va entry
            (dir-written k k' p entry va refl refl c.dir_outside c.dir_other) c.target))
      ∙ translate_at-new k' vc entry p c.aligned new,
  ap (translate_at k' vb)
        (find_entry-written k k' vb (dir-written k k' p entry vb refl refl dir_out dir_ne))
      ∙ translate_at-away k k' p entry vb (find_entry k vb) refl away,
)
  where
    k' : Mm
    k' = record k {
      mem = written k.mem p entry;
      allocs = k.allocs + 1;
      freelist = k.mem k.freelist;
    }

    new : written k.mem p entry entry ≡ entry_of p
    new = ground arith

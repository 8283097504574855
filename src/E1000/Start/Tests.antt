-- ===== src/E1000/Start/Tests.antt =====
-- A card with its registers at 2 ^ 30, and 65 free pages from 2 ^ 20 on.
use eggos.Base.{
  ℕ, zero, suc, ◌+◌, ◌*◌, ◌%◌, ◌^◌, ◌<◌, ◌≤◌, ◌≡◌, ◌≢◌, refl, ap, sym, ◌∙◌, subst, true, List, [],
  ◌∷◌, ◌&&◌, map, leb, ◌==◌, if◌then◌else◌, Result, ok, panic, arith, inr,
}
use eggos.Base.Words.{word}
use eggos.Mm.{Mm, fixmap, fix_pages, walk, pte_pw}
use eggos.Mm.FreeList.{Chain}
use eggos.Mm.Pool.Blocks.{Apart}
use eggos.E1000.Mac.{Hardware}
use eggos.E1000.Reg
use eggos.E1000.Start.{Bar, Ready, init}
use eggos.E1000.Start.Rings.{AllApart, HasPages, HasRing, init-Ready}

abbrev pages : ℕ → ℕ → List ℕ
pages v zero = []
pages v (suc n) = v ∷ pages (v + 4096) n

pages-Apart : (p v n : ℕ) → p + 4096 ≤ v → Apart 4096 p (pages v n)
pages-Apart p v zero h = tt
pages-Apart p v (suc n) h = (inr h, pages-Apart p (v + 4096) n (omega (arith, h)))

pages-AllApart : (v n : ℕ) → AllApart (pages v n)
pages-AllApart v zero = tt
pages-AllApart v (suc n) = (pages-Apart v (v + 4096) n (omega arith), pages-AllApart (v + 4096) n)

pages-Chain :
    (mem : ℕ → ℕ) (v n : ℕ)
    → v ≢ 0
    → ((m : ℕ) → m < n → mem (v + m * 4096) ≡ v + suc m * 4096)
    → mem (v + n * 4096) ≡ 0
    → Chain mem v (pages v (suc n))
pages-Chain mem v zero ne linked last = (refl, ne, ap mem (omega arith) ∙ last)
pages-Chain mem v (suc n) ne linked last =
    let step : v + 0 * 4096 ≡ v = omega arith in
    let next : mem v ≡ v + 4096 = ap mem (sym step) ∙ linked 0 (omega arith) ∙ omega arith in
    let there : (m : ℕ) → m < n → mem (v + 4096 + m * 4096) ≡ v + 4096 + suc m * 4096 =
      λ m h. ap mem (omega arith) ∙ linked (suc m) (omega (arith, h)) ∙ omega arith in
    let end : mem (v + 4096 + n * 4096) ≡ 0 = ap mem (omega arith) ∙ last in
    (
      refl,
      ne,
      subst (λ x. Chain mem x (pages (v + 4096) (suc n))) (sym next)
          (pages-Chain mem (v + 4096) n (omega (arith, ne)) there end),
    )

abbrev machine : Mm
machine = record {
  mem = λ a.
      if a == 5120
      then 8195
      else if a == 2 ^ 20 + 64 * 4096
      then 0
      else if leb (2 ^ 20) a && a % 4096 == 0
      then a + 4096
      else 0;
  memtop = 2 ^ 24;
  freelist = 2 ^ 20;
  voffset = 2 ^ 30;
  allocs = 0;
  pgdir = 4096;
}

abbrev or_machine : Result Mm → Mm
or_machine (ok m) = m
or_machine panic = machine

abbrev mapped : Mm
unfolding fixmap
mapped = or_machine (fixmap machine (2 ^ 30) (2 ^ 30) 4096 pte_pw)

abbrev bar : Bar
bar = record { addr = 2 ^ 30; len = 4096; ismem = true }

abbrev no_eeprom : Hardware
no_eeprom = record { poll = λ i. 0; eeprom = λ a. 0; rxaddr_low = 305419896; rxaddr_high = 43981 }

mapped-HasPages : HasPages mapped (pages (2 ^ 20) 65)
unfolding fixmap fix_pages walk
mapped-HasPages = (
  pages-Chain mapped.mem (2 ^ 20) 64 (omega arith) (λ m h. ground (arith, h)) refl,
  pages-AllApart (2 ^ 20) 65,
)

init-Ready_example :
    (s : Ready) × (k' : Mm) × (init machine bar 8 72 no_eeprom ≡ ok (s, k'))
    × ((s.rx_pages ≡ pages (2 ^ 20 + 4096) 32)
        × (s.tx_descs ≡ map (λ p. (p, 1)) (pages (2 ^ 20 + 33 * 4096) 32)))
    × (HasRing Reg.rdbal s.writes (2 ^ 20 % word) 31
        × HasRing Reg.tdbal s.writes ((2 ^ 20 + 528) % word) 0)
    × Chain k'.mem k'.freelist []
unfolding fixmap fix_pages walk
init-Ready_example =
    init-Ready machine mapped bar 8 72 no_eeprom (2 ^ 20) (pages (2 ^ 20 + 4096) 32)
      (pages (2 ^ 20 + 33 * 4096) 32) [] refl refl mapped-HasPages refl refl refl

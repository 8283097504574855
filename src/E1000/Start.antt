-- ===== src/E1000/Start.antt =====
-- Init of e1000/e1000.go: the descriptor rings in memory, and the register writes in order. What
-- ReadBAR gives and what CTRL reads as are arguments; E1000/Mac reads the address of the card.
-- Sleeping, the log and EnableBusMaster are left out.
pub mod Rings
pub mod Tests
use eggos.Base.{
  ℕ, zero, suc, ◌+◌, ◌-◌, ◌*◌, ◌%◌, ◌^◌, Bool, true, false, List, [], ◌∷◌, ◌++◌, map, bit_or, ◌==◌,
  if◌then◌else◌, Result, ok, panic, ◌>>=◌,
}
use eggos.Base.Words.{word}
use eggos.Mm.{Mm, alloc_cleared, fixmap, pte_pw}
use eggos.E1000.Reg
use eggos.E1000.Mac.{Hardware, read_mac}

-- ReadBAR(0)
pub record Bar : Type 0 where
  pub addr : ℕ
  pub len : ℕ
  pub ismem : Bool

-- The three registers behind RDBAL and TDBAL that are written with it, and the tail.
abbrev pub length_of : ℕ → ℕ
length_of base = base + 8

abbrev pub head_of : ℕ → ℕ
head_of base = base + 16

abbrev pub tail_of : ℕ → ℕ
tail_of base = base + 24

-- The card behind Init: the pages of its buffers, with the status of the descriptors for
-- sending, its rings, and the writes.
pub record Ready : Type 0 where
  pub rx_pages : List ℕ
  pub tx_descs : List (ℕ × ℕ)
  pub rx_ring : ℕ
  pub tx_ring : ℕ
  pub writes : List (ℕ × ℕ)
  pub mac : List ℕ

-- The loops that give each descriptor a page.
unfoldable pub alloc_pages : ℕ → Mm → Result (List ℕ × Mm)
alloc_pages zero k = ok ([], k)
alloc_pages (suc n) k = do r ← alloc_cleared k; s ← alloc_pages n r.1; ok (r.0 ∷ s.0, s.1)

-- The writes up to the rings; CTRL_RST, and CTRL_SLU|CTRL_ASDE.
unfoldable pub clear_table : ℕ → ℕ → List (ℕ × ℕ)
clear_table zero i = []
clear_table (suc n) i = (Reg.mta_base + i * 4, 0) ∷ clear_table n (suc i)

abbrev pub reset_writes : ℕ → ℕ → List (ℕ × ℕ)
reset_writes ctrl ctrl' =
    (Reg.imc, word - 1)
    ∷ (Reg.ctrl, bit_or ctrl (2 ^ 26))
    ∷ (Reg.imc, word - 1)
    ∷ (Reg.ctrl, bit_or ctrl' 96)
    ∷ clear_table 128 0

-- The writes of a ring of 32 descriptors of 16 bytes.
abbrev pub ring_writes : ℕ → ℕ → ℕ → List (ℕ × ℕ)
ring_writes base ring tail =
    (base, ring % word)
    ∷ (base + 4, 0)
    ∷ (length_of base, 512)
    ∷ (head_of base, 0)
    ∷ (tail_of base, tail)
    ∷ []

-- RCTL_EN|RCTL_SECRC|RCTL_BSIZE|RCTL_BAM, TCTL_EN|TCTL_PSP, IMS_RXT0.
abbrev pub all_writes : ℕ → ℕ → ℕ → ℕ → List (ℕ × ℕ)
all_writes ctrl ctrl' rx tx =
    reset_writes ctrl ctrl'
    ++ (ring_writes Reg.rdbal rx 31
        ++ ((Reg.rctl, 2 + 2 ^ 26 + 2 ^ 15)
            ∷ (ring_writes Reg.tdbal tx 0
                ++ ((Reg.tctl, 10) ∷ (Reg.ims, 128) ∷ (Reg.icr, word - 1) ∷ []))))

-- A ring has to start at a multiple of 16.
abbrev checked : ℕ → Result ℕ
checked ring = if ring % 16 == 0 then ok ring else panic

-- The card when all pages are there.
unfoldable pub ready : ℕ → ℕ → Hardware → ℕ → List ℕ → List ℕ → Ready
unfolding read_mac
ready ctrl ctrl' hardware page rx_pages tx_pages = record {
  rx_pages = rx_pages;
  tx_descs = map (λ p. (p, 1)) tx_pages;
  rx_ring = page;
  tx_ring = page + 33 * 16;
  writes = all_writes ctrl ctrl' page (page + 33 * 16);
  mac = read_mac hardware;
}

unfoldable pub init : Mm → Bar → ℕ → ℕ → Hardware → Result (Ready × Mm)
unfolding alloc_pages ready
init k bar ctrl ctrl' hardware =
    if bar.ismem
    then (do
      k1 ← fixmap k (bar.addr % word) (bar.addr % word) (bar.len % word) pte_pw
      page ← alloc_cleared k1
      rx_pages ← alloc_pages 32 page.1
      rx ← checked page.0
      tx_pages ← alloc_pages 32 rx_pages.1
      tx ← checked (page.0 + 33 * 16)
      ok (ready ctrl ctrl' hardware rx rx_pages.0 tx_pages.0, tx_pages.1))
    else panic

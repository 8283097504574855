-- ===== src/E1000/Tests.antt =====
-- A ring with two frames ready behind RDT, and a ring of free descriptors for sending.
use eggos.Base.{
  length-set, set, length, ◌+◌, ℕ, ◌<◌, ◌≡◌, refl, sym, subst, true, Option, none, some, List, [],
  ◌∷◌, ◌++◌, replicate, length-replicate, get_or-replicate, arith,
}
use eggos.Pic.{enable_irq, disable_irq, eoi, init}
use eggos.E1000.{
  num_descs, RxDesc, TxDesc, Card, tx_at, no_rxdesc, no_txdesc, Traffic, readpkt, read_all, intr,
  transmit,
}
use eggos.E1000.Receive.{arriving, Drained, read_all_drains}
use eggos.E1000.Send.{flatten, IsFree, Queued, transmit-Queued}

abbrev frame : List ℕ → RxDesc
frame p = record { frame = p; status = 3 }

abbrev free_desc : TxDesc
free_desc = record { buffer = replicate 4096 0; len = 0; cmd = 0; status = 1 }

abbrev card : Card
card = record {
  rxdescs = frame (1 ∷ 2 ∷ []) ∷ (replicate 30 no_rxdesc ++ (frame (9 ∷ []) ∷ []));
  txdescs = replicate 32 free_desc;
  rxidx = 0;
  txidx = 5;
  rdt = 30;
  tdt = 5;
  has_rxfunc = true;
  received = [];
  pic = init;
  irq_line = 11;
  irqno = 43;
}

abbrev received_by : Option Card → List (List ℕ)
received_by none = []
received_by (some c) = c.received

abbrev masks_of : Option Card → ℕ × ℕ
masks_of none = (0, 0)
masks_of (some c) = (c.pic.mask1, c.pic.mask2)

intr_test : received_by (intr 128 [] card) ≡ (9 ∷ []) ∷ (1 ∷ 2 ∷ []) ∷ []
unfolding intr read_all readpkt
intr_test = refl

-- The network line is open again behind the interrupt.
masks_test : masks_of (intr 0 [] card) ≡ (251, 247)
unfolding intr enable_irq init eoi
masks_test = refl

line_test : (disable_irq (enable_irq init 11) 11).mask2 ≡ 255
unfolding enable_irq disable_irq init
line_test = refl

-- The card fills the descriptor behind the last ready one during the first round.
abbrev late : Traffic
late = (λ descs. set descs 2 (frame (7 ∷ []))) ∷ []

read_all_drains_example :
    Drained card (arriving late card.rxdescs 31) (read_all (length late + 33) late card)
read_all_drains_example =
    read_all_drains late card refl refl ((λ descs. length-set descs 2 (frame (7 ∷ []))), tt)

card-IsFree : (m : ℕ) → m < num_descs → IsFree (tx_at card m)
card-IsFree m h =
    subst IsFree (sym (get_or-replicate 32 free_desc m no_txdesc h))
      (record { done = refl; page = length-replicate {A = ℕ} 4096 0 })

transmit-Queued_example :
    Queued card (1 ∷ 2 ∷ 3 ∷ []) (transmit card ((1 ∷ []) ∷ (2 ∷ 3 ∷ []) ∷ []))
unfolding flatten
transmit-Queued_example =
    transmit-Queued card ((1 ∷ []) ∷ (2 ∷ 3 ∷ []) ∷ []) (omega arith) (card-IsFree 5 (omega arith))
      (omega arith)

abbrev packets : List (List (List ℕ))
packets = replicate 32 ((7 ∷ []) ∷ [])

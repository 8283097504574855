-- ===== src/E1000.antt =====
-- e1000/e1000.go: the two rings of descriptors. A descriptor carries the bytes of its buffer. What
-- the card writes into the receive ring while the interrupt runs is an argument.
pub mod Receive
pub mod Send
pub mod Mac
pub mod Reg
pub mod Start
pub mod Tests
use eggos.Base.{
  ℕ, zero, suc, ◌+◌, ◌%◌, ◌^◌, Bool, true, false, not, Option, none, some, List, [], ◌∷◌, ◌++◌,
  length, get_or, set, take, drop, bit_and, bit_or, ltb, ◌==◌, if◌then◌else◌,
}
use eggos.Base.Words.{word}
use eggos.Pic.{Pic, enable_irq, eoi}

abbrev pub num_descs : ℕ
num_descs = 32

abbrev pub page_size : ℕ
page_size = 4096

pub record RxDesc : Type 0 where
  pub frame : List ℕ
  pub status : ℕ

pub record TxDesc : Type 0 where
  pub buffer : List ℕ
  pub len : ℕ
  pub cmd : ℕ
  pub status : ℕ

-- The driver with the registers RDT and TDT, whether rxfunc is set, the frames that it was called
-- with, and its lines at the interrupt controller.
pub record Card : Type 0 where
  pub rxdescs : List RxDesc
  pub txdescs : List TxDesc
  pub rxidx : ℕ
  pub txidx : ℕ
  pub rdt : ℕ
  pub tdt : ℕ
  pub has_rxfunc : Bool
  pub received : List (List ℕ)
  pub pic : Pic
  pub irq_line : ℕ
  pub irqno : ℕ

abbrev pub no_rxdesc : RxDesc
no_rxdesc = record { frame = []; status = 0 }

abbrev pub no_txdesc : TxDesc
no_txdesc = record { buffer = []; len = 0; cmd = 0; status = 0 }

-- RX_DESC_DD|RX_DESC_EOP
abbrev pub is_ready : RxDesc → Bool
is_ready d = bit_and d.status 3 == 3

abbrev pub call_rxfunc : Card → List ℕ → List (List ℕ)
call_rxfunc c frame = if c.has_rxfunc then c.received ++ (frame ∷ []) else c.received

-- SetReceiveCallback
abbrev pub set_receive_callback : Card → Card
set_receive_callback c = record c { has_rxfunc = true }

abbrev pub rx_at : Card → ℕ → RxDesc
rx_at c i = get_or c.rxdescs i no_rxdesc

abbrev pub take_packet : Card → ℕ → Card
take_packet c i = record c {
  rxidx = i;
  received = call_rxfunc c (rx_at c i).frame;
  rxdescs = set c.rxdescs i (record (rx_at c i) { status = 0 });
  rdt = i;
}

unfoldable pub readpkt : Card → Bool × Card
readpkt c =
    let i = (c.rdt + 1) % num_descs in
    if is_ready (rx_at c i) then (true, take_packet c i) else (false, record c { rxidx = i })

-- What the card writes into the ring while the loop of Intr runs: a step behind each of its first
-- rounds, since a round gives a descriptor back, and nothing behind the later ones.
abbrev pub Traffic : Type 0
Traffic = List (List RxDesc → List RxDesc)

-- The loop of Intr: `none` when the rounds run out.
abbrev again : (Traffic → Card → Option Card) → Traffic → Bool × Card → Option Card
again loop traffic (false, c) = some c
again loop [] (true, c) = loop [] c
again loop (f ∷ fs) (true, c) = loop fs (record c { rxdescs = f c.rxdescs })

unfoldable pub read_all : ℕ → Traffic → Card → Option Card
read_all zero traffic c = none
read_all (suc rounds) traffic c = again (read_all rounds) traffic (readpkt c)

-- The two deferred calls.
abbrev pub end_irq : Card → Card
end_irq c = record c { pic = enable_irq (eoi c.pic c.irqno) c.irq_line }

abbrev map_card : Option Card → Option Card
map_card none = none
map_card (some c) = some (end_irq c)

-- Intr, with the cause that ICR reads as; ICR_RXT0 is bit 7.
unfoldable pub intr : ℕ → Traffic → Card → Option Card
unfolding read_all
intr cause traffic c =
    if bit_and cause 128 == 0
    then some (end_irq c)
    else map_card (read_all (length traffic + (num_descs + 1)) traffic c)

-- copy(txbuf[at:], view)
abbrev pub overlay : List ℕ → ℕ → List ℕ → List ℕ
overlay buffer at view = take at buffer ++ (view ++ drop (at + length view) buffer)

-- The loop of Transmit over the views of the packet: the buffer and the length, or an error.
unfoldable pub fill : List ℕ → ℕ → List (List ℕ) → Bool × (List ℕ × ℕ)
fill buffer pktlen [] = (true, (buffer, pktlen))
fill buffer pktlen (v ∷ vs) =
    let rest = fill (overlay buffer pktlen v) (pktlen + length v) vs in
    if ltb page_size (pktlen + length v) then (false, (buffer, pktlen)) else rest

pub data Sent : Type 0 where
  sent queue_full too_large : Sent

abbrev pub tx_at : Card → ℕ → TxDesc
tx_at c i = get_or c.txdescs i no_txdesc

-- TX_DESC_IFCS|TX_DESC_EOP|TX_DESC_RS is 11.
abbrev pub queued : Card → Bool × (List ℕ × ℕ) → Sent × Card
queued c (false, (buffer, pktlen)) = (
  too_large,
  record c { txdescs = set c.txdescs c.txidx (record (tx_at c c.txidx) { buffer = buffer }) },
)
queued c (true, (buffer, pktlen)) = (
  sent,
  record c {
    txdescs =
        set c.txdescs c.txidx
          (record { buffer = buffer; len = pktlen % 2 ^ 16; cmd = 11; status = 0 });
    txidx = (c.txidx + 1) % num_descs;
    tdt = (c.txidx + 1) % num_descs;
  },
)

unfoldable pub transmit : Card → List (List ℕ) → Sent × Card
unfolding fill
transmit c views =
    if (tx_at c c.txidx).status == 0
    then (queue_full, c)
    else queued c (fill (tx_at c c.txidx).buffer 0 views)

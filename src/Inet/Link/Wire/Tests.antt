-- ===== src/Inet/Link/Wire/Tests.antt =====
-- A codec that keeps the laws, and a packet from one card to another.
use eggos.Base.{
  ℕ, ◌+◌, ◌*◌, ◌/◌, ◌%◌, ◌≡◌, refl, sym, subst, true, List, [], ◌∷◌, ◌++◌, length, get_or, ok,
  arith, replicate, get_or-replicate, length-replicate,
}
use eggos.E1000.{Card, TxDesc, tx_at, no_txdesc}
use eggos.E1000.Send.{flatten, IsFree}
use eggos.Inet.Link.{Ethernet, IsCodec, Route, Packet, Endpoint, written, write_packet, onrx}
use eggos.Inet.Link.Wire.{card_device, on_wire, arrived, onrx-write_packet}
use eggos.Pic.{init}

abbrev six : List ℕ → ℕ → List ℕ
six xs i =
    get_or xs i 0
    ∷ get_or xs (i + 1) 0
    ∷ get_or xs (i + 2) 0
    ∷ get_or xs (i + 3) 0
    ∷ get_or xs (i + 4) 0
    ∷ get_or xs (i + 5) 0
    ∷ []

six-whole : (xs : List ℕ) → length xs ≡ 6 → six xs 0 ≡ xs
six-whole [] h = absurd (omega (arith, h))
six-whole (a ∷ []) h = absurd (omega (arith, h))
six-whole (a ∷ b ∷ []) h = absurd (omega (arith, h))
six-whole (a ∷ b ∷ c ∷ []) h = absurd (omega (arith, h))
six-whole (a ∷ b ∷ c ∷ d ∷ []) h = absurd (omega (arith, h))
six-whole (a ∷ b ∷ c ∷ d ∷ e ∷ []) h = absurd (omega (arith, h))
six-whole (a ∷ b ∷ c ∷ d ∷ e ∷ f ∷ []) h = refl
six-whole (a ∷ b ∷ c ∷ d ∷ e ∷ f ∷ g ∷ xs) h = absurd (omega (arith, h))

-- The destination, the source and the type, its high byte first.
abbrev plain : Ethernet
plain = record {
  encode = λ f. six f.dst_addr 0 ++ (six f.src_addr 0 ++ (f.kind / 256 ∷ f.kind % 256 ∷ []));
  source_address = λ h. six h 6;
  destination_address = λ h. six h 0;
  type_of = λ h. get_or h 12 0 * 256 + get_or h 13 0;
}

plain-IsCodec : IsCodec plain
plain-IsCodec = record {
  length_law = λ f. refl;
  source_law = λ f h. six-whole f.src_addr h;
  destination_law = λ f h. six-whole f.dst_addr h;
  type_law = λ f h. omega arith;
}

abbrev waiting : TxDesc
waiting = record { buffer = replicate 4096 0; len = 0; cmd = 0; status = 1 }

abbrev sender : Card
sender = record {
  rxdescs = [];
  txdescs = replicate 32 waiting;
  rxidx = 0;
  txidx = 31;
  rdt = 31;
  tdt = 31;
  has_rxfunc = true;
  received = [];
  pic = init;
  irq_line = 11;
  irqno = 43;
}

sender-IsFree : IsFree (tx_at sender 31)
sender-IsFree =
    subst IsFree (sym (get_or-replicate 32 waiting 31 no_txdesc (omega arith)))
      (record { done = refl; page = length-replicate {A = ℕ} 4096 0 })

abbrev near : Endpoint
near = record { addr = 82 ∷ 84 ∷ 0 ∷ 18 ∷ 52 ∷ 86 ∷ []; hdrsize = 14; attached = true }

abbrev far : Endpoint
far = record { addr = 82 ∷ 84 ∷ 0 ∷ 18 ∷ 52 ∷ 87 ∷ []; hdrsize = 14; attached = true }

abbrev route : Route
route = record { local_address = []; remote_address = far.addr }

abbrev hello : Packet
hello = record { header = 69 ∷ 0 ∷ []; views = (1 ∷ 2 ∷ []) ∷ (3 ∷ []) ∷ [] }

onrx-write_packet_example :
    let sent_by = write_packet plain (card_device near.addr) near sender route 2048 hello in
    (sent_by.0 ≡ written)
    × (onrx plain far (on_wire sent_by.1 31) (9 ∷ [])
        ≡ ok (
            arrived plain plain-IsCodec near route 2048
              (69 ∷ 0 ∷ flatten ((1 ∷ 2 ∷ []) ∷ (3 ∷ []) ∷ []))))
unfolding flatten
onrx-write_packet_example =
    onrx-write_packet plain plain-IsCodec near far sender route 2048 hello (9 ∷ []) refl refl refl
      refl (omega arith) (omega (arith, length-replicate 32 waiting)) sender-IsFree (omega arith)

-- ===== src/Inet/Link/Wire.antt =====
-- A packet on its way from one endpoint through the ring of its card to another endpoint.
pub mod Tests
use eggos.Base.{
  ℕ, zero, suc, ◌+◌, ◌-◌, ◌<◌, ◌≤◌, ◌≡◌, ◌≢◌, ◌^◌, refl, sym, ap, ◌∙◌, subst, Bool, true, false,
  List, [], ◌∷◌, ◌++◌, length, take, drop, ltb, if◌then◌else◌, Result, ok, panic, arith,
  length-append, append_assoc,
}
use eggos.E1000.{num_descs, page_size, Card, tx_at, Sent, sent, queue_full, too_large, transmit}
use eggos.E1000.Send.{flatten, IsFree, Queued, transmit-Queued}
use eggos.Inet.Link.{
  header_size, EthernetFields, Ethernet, IsCodec, Route, Packet, Delivered, WriteReply, written,
  already_bound, reply, Device, Endpoint, source_of, framed, write_packet, onrx,
}

-- The card as the device of an endpoint: Transmit sends the header, then the views of the data.
abbrev pub took : Sent × Card → Bool × Card
took (sent, c) = (true, c)
took (queue_full, c) = (false, c)
took (too_large, c) = (false, c)

abbrev pub card_device : List ℕ → Device
card_device mac = record {
  World = Card;
  mac = λ c. mac;
  transmit = λ c pkt. took (transmit c (pkt.header ∷ pkt.views));
}

-- The bytes that the card finds in the descriptor that was next.
abbrev pub on_wire : Card → ℕ → List ℕ
on_wire c i = take (tx_at c i).len (tx_at c i).buffer

reply-took : (t : Sent × Card) → t.0 ≡ sent → reply (took t) ≡ (written, t.1)
reply-took t h = rw h refl

take-append : (xs ys : List ℕ) → take (length xs) (xs ++ ys) ≡ xs
take-append [] ys = refl
take-append (x ∷ xs) ys = ap (λ zs. x ∷ zs) (take-append xs ys)

drop-append : (xs ys : List ℕ) → drop (length xs) (xs ++ ys) ≡ ys
drop-append [] ys = refl
drop-append (x ∷ xs) ys = drop-append xs ys

module _ (ethernet : Ethernet) (codec : IsCodec ethernet) where
  abbrev pub fields_of : Endpoint → Route → ℕ → EthernetFields
  fields_of e r protocol = record {
    src_addr = source_of e r;
    dst_addr = r.remote_address;
    kind = protocol;
  }

  -- What the other end delivers of a packet.
  abbrev pub arrived : Endpoint → Route → ℕ → List ℕ → Delivered
  arrived e r protocol contents = record {
    remote = source_of e r;
    local = r.remote_address;
    protocol = protocol;
    link_header = ethernet.encode (fields_of e r protocol);
    contents = contents;
  }

  onrx-encoded :
      (e : Endpoint) (f : EthernetFields) (contents behind : List ℕ)
      → e.attached ≡ true
      → e.hdrsize ≡ header_size
      → length f.src_addr ≡ 6
      → length f.dst_addr ≡ 6
      → f.kind < 2 ^ 16
      → onrx ethernet e (ethernet.encode f ++ contents) behind
        ≡ ok (record {
          remote = f.src_addr;
          local = f.dst_addr;
          protocol = f.kind;
          link_header = ethernet.encode f;
          contents = contents;
        })
  unfolding onrx
  onrx-encoded e f contents behind att size ls ld k =
      let enc = ethernet.encode f in
      let frame = (enc ++ contents) ++ behind in
      let joined : frame ≡ enc ++ (contents ++ behind) = append_assoc enc contents behind in
      let size_of : header_size ≤ length frame = omega (
        arith,
        length-append (enc ++ contents) behind,
        length-append enc contents,
        codec.length_law f,
      ) in
      let long : ltb (length frame) header_size ≡ false = ground (arith, size_of) in
      let front : take header_size frame ≡ enc =
        ap (take header_size) joined
        ∙ ap (λ n. take n (enc ++ (contents ++ behind))) (sym (codec.length_law f))
        ∙ take-append enc (contents ++ behind) in
      let back =
        ap (λ n. drop n (enc ++ contents)) (sym (codec.length_law f)) ∙ drop-append enc contents in
      rw
        (
          long,
          att,
          size,
          front,
          back,
          codec.source_law f ls,
          codec.destination_law f ld,
          codec.type_law f k,
        )
        refl

  -- When the addresses have six bytes and the type two, the packet fits into a page, and the next
  -- descriptor of the card is free: WritePacket succeeds, and onrx of an attached endpoint,
  -- called with the bytes in the descriptor, whatever lies behind them, delivers the packet with its addresses, its type and
  -- all the bytes behind the link header.
  pub onrx-write_packet :
      (e e2 : Endpoint) (c : Card) (r : Route) (protocol : ℕ) (pkt : Packet) (behind : List ℕ)
      → e2.attached ≡ true
      → e2.hdrsize ≡ header_size
      → length (source_of e r) ≡ 6
      → length r.remote_address ≡ 6
      → protocol < 2 ^ 16
      → c.txidx < length c.txdescs
      → IsFree (tx_at c c.txidx)
      → header_size + length (pkt.header ++ flatten pkt.views) ≤ page_size
      → let sent_by = write_packet ethernet (card_device e.addr) e c r protocol pkt in
        (sent_by.0 ≡ written)
        × (onrx ethernet e2 (on_wire sent_by.1 c.txidx) behind
            ≡ ok (arrived e r protocol (pkt.header ++ flatten pkt.views)))
  unfolding write_packet flatten
  onrx-write_packet e e2 c r protocol pkt behind att size ls ld k room free fits =
      let enc = ethernet.encode (fields_of e r protocol) in
      let views = (enc ++ pkt.header) ∷ pkt.views in
      let whole : flatten views ≡ enc ++ (pkt.header ++ flatten pkt.views) =
        append_assoc enc pkt.header (flatten pkt.views) in
      let size_of : length (flatten views) ≤ page_size = omega (
        arith,
        fits,
        ap length whole,
        length-append enc (pkt.header ++ flatten pkt.views),
        codec.length_law (fields_of e r protocol),
      ) in
      let queued = transmit-Queued c views room free size_of in
      let taken : write_packet ethernet (card_device e.addr) e c r protocol pkt
          ≡ (written, (transmit c views).1) =
        reply-took (transmit c views) queued.accepted in
      (
        ap (λ w. w.0) taken,
        ap (λ w. onrx ethernet e2 (on_wire w.1 c.txidx) behind) taken
            ∙ ap (λ x. onrx ethernet e2 x behind) (queued.contents ∙ whole)
            ∙ onrx-encoded e2 (fields_of e r protocol) (pkt.header ++ flatten pkt.views) behind att
                size ls ld k,
      )

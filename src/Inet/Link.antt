-- ===== src/Inet/Link.antt =====
-- inet/endpoint.go: the link endpoint between the network stack and the card. The codec of Ethernet
-- headers (netstack's header.Ethernet) is a parameter, and so is the card with its Transmit. A
-- packet is its header bytes and the views of its data; the lock makes a call of Transmit one step.
pub mod Wire
use eggos.Base.{
  ℕ, ◌+◌, ◌-◌, Bool, true, false, Option, none, some, List, [], ◌∷◌, ◌++◌, length, take, drop, ltb,
  if◌then◌else◌, Result, ok, panic, ◌≡◌, ◌<◌, ◌^◌,
}

-- header.EthernetMinimumSize
abbrev pub header_size : ℕ
header_size = 14

abbrev pub mtu : ℕ
mtu = 1500

-- header.EthernetFields; an address is its bytes.
pub record EthernetFields : Type 0 where
  pub src_addr : List ℕ
  pub dst_addr : List ℕ
  pub kind : ℕ

-- Encode, and the three accessors, on the bytes of a header.
pub record Ethernet : Type 0 where
  pub encode : EthernetFields → List ℕ
  pub source_address : List ℕ → List ℕ
  pub destination_address : List ℕ → List ℕ
  pub type_of : List ℕ → ℕ

-- The addresses of a route; an empty local address is not set.
pub record Route : Type 0 where
  pub local_address : List ℕ
  pub remote_address : List ℕ

pub record Packet : Type 0 where
  pub header : List ℕ
  pub views : List (List ℕ)

-- The record of laws that the codec keeps for addresses of six bytes and types of two.
pub record IsCodec (ethernet : Ethernet) : Type 0 where
  pub length_law : (f : EthernetFields) → length (ethernet.encode f) ≡ header_size
  pub source_law :
      (f : EthernetFields)
      → length f.src_addr ≡ 6
      → ethernet.source_address (ethernet.encode f) ≡ f.src_addr
  pub destination_law :
      (f : EthernetFields)
      → length f.dst_addr ≡ 6
      → ethernet.destination_address (ethernet.encode f) ≡ f.dst_addr
  pub type_law :
      (f : EthernetFields) → f.kind < 2 ^ 16 → ethernet.type_of (ethernet.encode f) ≡ f.kind

-- What DeliverNetworkPacket is called with.
pub record Delivered : Type 0 where
  pub remote : List ℕ
  pub local : List ℕ
  pub protocol : ℕ
  pub link_header : List ℕ
  pub contents : List ℕ

-- tcpip.ErrAlreadyBound, or success.
pub data WriteReply : Type 0 where
  written already_bound : WriteReply

-- The card: Transmit on its state tells whether it took the packet.
pub record Device : Type 1 where
  pub World : Type 0
  pub mac : World → List ℕ
  pub transmit : World → Packet → Bool × World

-- endpoint; `attached` tells whether a dispatcher is set.
pub record Endpoint : Type 0 where
  pub addr : List ℕ
  pub hdrsize : ℕ
  pub attached : Bool

-- New, without the callback that it sets.
unfoldable pub new : (device : Device) → device.World → Endpoint
new device w = record { addr = device.mac w; hdrsize = header_size; attached = false }

-- Attach
abbrev pub attach : Endpoint → Endpoint
attach e = record e { attached = true }

-- The source address of a packet on a route.
abbrev pub source_of : Endpoint → Route → List ℕ
source_of e r = if ltb 0 (length r.local_address) then r.local_address else e.addr

abbrev pub reply : {W : Type 0} → Bool × W → WriteReply × W
reply (true, w) = (written, w)
reply (false, w) = (already_bound, w)

module _ (ethernet : Ethernet) where
  abbrev pub framed : Endpoint → Route → ℕ → Packet → Packet
  framed e r protocol pkt = record pkt {
    header =
        ethernet.encode
          (record { src_addr = source_of e r; dst_addr = r.remote_address; kind = protocol })
        ++ pkt.header;
  }

  unfoldable pub write_packet :
      (device : Device) → Endpoint → device.World → Route → ℕ → Packet → WriteReply × device.World
  write_packet device e w r protocol pkt = reply (device.transmit w (framed e r protocol pkt))

  -- onrx, with the bytes that lie behind the frame up to the capacity of its slice: the header is
  -- taken of both, and panics only beyond the capacity. A missing dispatcher panics.
  unfoldable pub onrx : Endpoint → List ℕ → List ℕ → Result Delivered
  onrx e buf behind =
      if ltb (length (buf ++ behind)) header_size
      then panic
      else if e.attached
      then (let eth = take header_size (buf ++ behind) in
          ok (record {
            remote = ethernet.source_address eth;
            local = ethernet.destination_address eth;
            protocol = ethernet.type_of eth;
            link_header = eth;
            contents = drop e.hdrsize buf;
          }))
      else panic

-- ===== src/Inet.antt =====
-- inet/sockfile.go: a socket as a file, over the network stack (netstack), which is a parameter:
-- its endpoints, with the state that their methods go from and to. The events that a socket
-- reports go to the registered descriptors of kernel/epoll.go.
pub mod Calls
pub mod Stream
pub mod Link
pub mod Start
pub mod Peer
pub mod Closed
pub mod Tests
use eggos.Base.{
  ℕ, zero, suc, ◌+◌, ◌*◌, ◌/◌, ◌%◌, Bool, true, false, Option, none, some, List, [], ◌∷◌, ◌++◌,
  length, get_or, set, take, drop, bit_and, bit_or, min, ltb, ◌==◌, if◌then◌else◌,
}
use eggos.Isyscall.{
  Error, errno, other, eagain, einval, epipe, einprogress, econnrefused, Attempt, done, failed,
}
use eggos.Kernel.Epoll.{Epoll, epoll_notify}

-- The errors of the stack that the code tells apart.
pub data NetError : Type 0 where
  would_block closed_for_receive closed_for_send no_link_address : NetError
  connect_started connection_refused other_error : NetError

pub record FullAddress : Type 0 where
  pub ip : List ℕ
  pub port : ℕ

-- The options that SetSockOpt is called with.
pub data SockOption : Type 0 where
  reuse_address broadcast delay keepalive_enabled : ℕ → SockOption
  keepalive_interval keepalive_idle : ℕ → SockOption

pub data Answer (A : Type 0) : Type 0 where
  value : A → Answer A
  refused : NetError → Answer A

-- A view that a read returns, an error of the other calls, or a new endpoint.
pub record Network : Type 1 where
  pub World : Type 0
  pub Endpoint : Type 0
  pub ep_read : World → Endpoint → Answer (List ℕ) × World
  pub ep_write : World → Endpoint → List ℕ → (ℕ × Option NetError) × World
  pub ep_close : World → Endpoint → World
  pub ep_bind : World → Endpoint → FullAddress → Option NetError × World
  pub ep_connect : World → Endpoint → FullAddress → Option NetError × World
  pub ep_listen : World → Endpoint → ℕ → Option NetError × World
  pub ep_accept : World → Endpoint → Answer Endpoint × World
  pub ep_set_option : World → Endpoint → SockOption → Option NetError × World
  pub ep_get_error : World → Endpoint → Option NetError × World
  pub ep_remote : World → Endpoint → Answer FullAddress
  pub ep_local : World → Endpoint → Answer FullAddress
  -- A new endpoint of TCP (true) or UDP.
  pub new_endpoint : World → Bool → Answer Endpoint × World

-- e, where an error has a text of its own.
abbrev pub net_error : Option NetError → Option Error
net_error none = none
net_error (some e) = some other

-- _sockaddr
pub record Sockaddr : Type 0 where
  pub family : ℕ
  pub port : ℕ
  pub ip : List ℕ

abbrev pub sockaddr_size : ℕ
sockaddr_size = 8

abbrev pub af_inet : ℕ
af_inet = 2

-- inet/socket.go: ntohs and htons, on 16 bits.
unfoldable pub ntohs : ℕ → ℕ
ntohs n = bit_or (bit_and n 0xff * 256) (bit_and (n / 256) 0xff)

abbrev pub htons : ℕ → ℕ
htons n = ntohs n

-- waiter.EventIn and its fellows, as epoll has them.
abbrev event_in : ℕ
event_in = 1

abbrev event_out : ℕ
event_out = 4

abbrev event_err : ℕ
event_err = 8

abbrev event_hup : ℕ
event_hup = 16

module _ (N : Network) where
  open N use {Endpoint, World}

  -- sockFile, without its queue of waiters.
  pub record Sock : Type 0 where
    pub fd : ℕ
    pub ep : Endpoint
    pub rdbuf : Option (List ℕ)

  -- The stack, the sockets that were made, and the registered descriptors.
  pub record Sockets : Type 0 where
    pub world : World
    pub socks : List Sock
    pub epoll : Epoll

  -- What the stack calls when a socket has something to say.
  abbrev pub evin : Epoll → Sock → Epoll
  evin k s = epoll_notify k s.fd event_in

  abbrev pub evout : Epoll → Sock → Epoll
  evout k s = epoll_notify k s.fd event_out

  abbrev pub everr : Epoll → Sock → Epoll
  everr k s = epoll_notify k s.fd event_err

  abbrev pub evehup : Epoll → Sock → Epoll
  evehup k s = epoll_notify k s.fd event_hup

  -- What the end of Read does with the bytes that are there.
  abbrev pub hand_out : Epoll → Sock → List ℕ → ℕ → List ℕ × (Sock × Epoll)
  hand_out k s buf n =
      if min n (length buf) == length buf
      then (take n buf, (record s { rdbuf = none }, k))
      else (take n buf, (record s { rdbuf = some (drop n buf) }, evin k s))

  -- Read: the bytes with an error, the socket and the stack. A closed endpoint gives no bytes
  -- and no error.
  pub record ReadReply : Type 0 where
    pub data_read : List ℕ
    pub error : Option Error
    pub sock : Sock
    pub epoll : Epoll
    pub world : World

  abbrev read_answer : Epoll → Sock → ℕ → Answer (List ℕ) × World → ReadReply
  read_answer k s n (value v, w) =
      let r = hand_out k s v n in
      record { data_read = r.0; error = none; sock = r.1.0; epoll = r.1.1; world = w }
  read_answer k s n (refused would_block, w) = record {
    data_read = [];
    error = some (errno eagain);
    sock = s;
    epoll = k;
    world = w;
  }
  read_answer k s n (refused closed_for_receive, w) = record {
    data_read = [];
    error = none;
    sock = s;
    epoll = k;
    world = w;
  }
  read_answer k s n (refused _, w) = record {
    data_read = [];
    error = some other;
    sock = s;
    epoll = k;
    world = w;
  }

  abbrev read_from : World → Epoll → Sock → ℕ → Option (List ℕ) → ReadReply
  read_from w k s n (some buf) =
      let r = hand_out k s buf n in
      record { data_read = r.0; error = none; sock = r.1.0; epoll = r.1.1; world = w }
  read_from w k s n none = read_answer k s n (N.ep_read w s.ep)

  unfoldable pub sock_read : World → Epoll → Sock → ℕ → ReadReply
  sock_read w k s n = read_from w k s n s.rdbuf

  -- A round of Write: it returns, or waits for the link address and tries again.
  pub data Writing : Type 0 where
    wrote : ℕ → Option Error → World → Writing
    unresolved : World → Writing

  abbrev write_error : Option NetError → World → Writing
  write_error (some would_block) w = wrote 0 (some (errno eagain)) w
  write_error (some closed_for_send) w = wrote 0 (some (errno epipe)) w
  write_error (some no_link_address) w = unresolved w
  write_error e w = wrote 0 (net_error e) w

  unfoldable pub sock_write : World → Sock → List ℕ → Writing
  sock_write w s p =
      let r = N.ep_write w s.ep p in
      if r.0.0 == 0 then write_error r.0.1 r.1 else wrote r.0.0 none r.1

  -- Close
  abbrev pub sock_close : World → Sock → Option Error × World
  sock_close w s = (none, N.ep_close w s.ep)

  -- Bind: the address is one of 16 bytes, as net.IPv4 makes them.
  abbrev pub mapped : List ℕ → List ℕ
  mapped ip = 0 ∷ 0 ∷ 0 ∷ 0 ∷ 0 ∷ 0 ∷ 0 ∷ 0 ∷ 0 ∷ 0 ∷ 255 ∷ 255 ∷ ip

  unfoldable pub sock_bind : World → Sock → Sockaddr → ℕ → Option Error × World
  sock_bind w s addr len =
      if ltb len sockaddr_size
      then (some other, w)
      else let r = N.ep_bind w s.ep (record { ip = mapped addr.ip; port = ntohs addr.port }) in
        (net_error r.0, r.1)

  -- Connect
  abbrev connect_error : Option NetError → Option Error
  connect_error (some connect_started) = some (errno einprogress)
  connect_error e = net_error e

  unfoldable pub sock_connect : World → Sock → Sockaddr → ℕ → Option Error × World
  sock_connect w s addr len =
      if ltb len sockaddr_size
      then (some (errno einval), w)
      else let r = N.ep_connect w s.ep (record { ip = addr.ip; port = ntohs addr.port }) in
        (connect_error r.0, r.1)

  -- Listen
  abbrev pub sock_listen : World → Sock → ℕ → Option Error × World
  sock_listen w s n = let r = N.ep_listen w s.ep n in (net_error r.0, r.1)

-- ===== src/Inet/Peer.antt =====
-- inet/sockfile.go: what Accept4 hands out.
use eggos.Base.{
  ℕ, ◌+◌, ◌*◌, ◌/◌, ◌%◌, ◌^◌, ◌≤◌, ◌<◌, ◌≡◌, refl, sym, ap, ◌∙◌, subst, false, Option, none, some,
  List, [], ◌∷◌, ◌++◌, length, get_elem?, set, bit_and, bit_or, ok, ◌>>=◌, arith, get_or-set_self,
  length-set, le→ltb,
}
use eggos.Base.Bits.{bit_and-halves, bit_and-zero, bit_or-add}
use eggos.Base.Words.{is_negative}
use eggos.Fs.{Devices, device, Inode, no_inode, alloc_inode}
use eggos.Fs.Table.{entry, Allocated, alloc_inode-Allocated}
use eggos.Fs.Errors.{get_inode-used}
use eggos.Inet.{FullAddress, value, Network, Sockaddr, sockaddr_size, ntohs, Sock}
use eggos.Inet.Calls.{
  copy_ip, Host, Reply, alloc_sock_file, find_sock_file, sock_accept4, with_world, inode_sock,
  accept_addr, accept_answer, sock_at,
}

bit_and-odd : (n m : ℕ) → bit_and n (m * 2 + 1) ≡ bit_and (n / 2) m * 2 + n % 2
bit_and-odd n m =
    let half : (m * 2 + 1) / 2 ≡ m = omega arith in
    omega (arith, bit_and-halves n (m * 2 + 1), ap (bit_and (n / 2)) half)

bit_and-byte : (n : ℕ) → bit_and n 255 ≡ n % 256
bit_and-byte n = omega (
  arith,
  bit_and-odd n 127,
  bit_and-odd (n / 2) 63,
  bit_and-odd (n / 2 / 2) 31,
  bit_and-odd (n / 2 / 2 / 2) 15,
  bit_and-odd (n / 2 / 2 / 2 / 2) 7,
  bit_and-odd (n / 2 / 2 / 2 / 2 / 2) 3,
  bit_and-odd (n / 2 / 2 / 2 / 2 / 2 / 2) 1,
  bit_and-odd (n / 2 / 2 / 2 / 2 / 2 / 2 / 2) 0,
  bit_and-zero (n / 2 / 2 / 2 / 2 / 2 / 2 / 2 / 2),
)

ntohs-swap : (n : ℕ) → n < 2 ^ 16 → ntohs n ≡ n % 256 * 256 + n / 256
unfolding ntohs
ntohs-swap n h = omega (
  arith,
  h,
  bit_and-byte n,
  bit_and-byte (n / 256),
  ap (λ x. bit_or (x * 256) (bit_and (n / 256) 255)) (bit_and-byte n),
  ap (bit_or (n % 256 * 256)) (bit_and-byte (n / 256)),
  bit_or-add 8 (n % 256) (n / 256 % 256) (omega arith),
)

-- Two swaps of the bytes of a port are none.
pub ntohs_twice : (n : ℕ) → n < 2 ^ 16 → ntohs (ntohs n) ≡ n
ntohs_twice n h =
    ap ntohs (ntohs-swap n h) ∙ ntohs-swap (n % 256 * 256 + n / 256) (omega arith) ∙ omega arith

get_elem?-end :
    {A : Type 0} → (xs : List A) (x : A) → get_elem? (xs ++ (x ∷ [])) (length xs) ≡ some x
get_elem?-end [] x = refl
get_elem?-end (y ∷ xs) x = get_elem?-end xs x

copy_ip-same : (old ip : List ℕ) → length old ≡ length ip → copy_ip old ip ≡ ip
copy_ip-same [] [] h = refl
copy_ip-same [] (b ∷ ip) h = absurd (omega (arith, h))
copy_ip-same (a ∷ old) [] h = absurd (omega (arith, h))
copy_ip-same (a ∷ old) (b ∷ ip) h = ap (λ xs. b ∷ xs) (copy_ip-same old ip (omega (arith, h)))

module _ (N : Network) (D : Devices) (socket_of : D.Device → Option ℕ)
    (of_socket : ℕ → D.Device) where
  open N use {Endpoint, World}

  module _ (is_socket : (i : ℕ) → socket_of (of_socket i) ≡ some i) where
    alloc-find :
        (h : Host N D socket_of of_socket) (ep : Endpoint)
        → is_negative (alloc_inode D h.files.inodes).0 ≡ false
        → find_sock_file N D socket_of of_socket
            (alloc_sock_file N D socket_of of_socket h ep).1
            (alloc_sock_file N D socket_of of_socket h ep).0
          ≡ ok (some (record { fd = (alloc_inode D h.files.inodes).0; ep = ep; rdbuf = none }))
    unfolding alloc_sock_file find_sock_file
    alloc-find h ep sign =
        ap (λ m. m >>= λ ni. ok (inode_sock N D socket_of of_socket socks ni))
          (get_inode-used D nis fd sign (omega (arith, a.inside, length-set nis₁ fd opened))
            (ap Inode.inuse here ∙ a.taken))
        ∙ ap (λ ni. ok (inode_sock N D socket_of of_socket socks (some ni))) here
        ∙ ap (λ i. ok (sock_at N D socket_of of_socket socks i)) (is_socket (length h.net.socks))
        ∙ ap (λ s. ok s) (get_elem?-end h.net.socks _)
      where
        fd : ℕ
        fd = (alloc_inode D h.files.inodes).0

        nis₁ : List (Inode D)
        nis₁ = (alloc_inode D h.files.inodes).1

        opened : Inode D
        opened = record (entry D nis₁ fd) { file = some (device (of_socket (length h.net.socks))) }

        nis : List (Inode D)
        nis = set nis₁ fd opened

        socks : List (Sock N)
        socks = h.net.socks ++ (record { fd = fd; ep = ep; rdbuf = none } ∷ [])

        a : Allocated D h.files.inodes (alloc_inode D h.files.inodes)
        a = alloc_inode-Allocated D h.files.inodes

        here : entry D nis fd ≡ opened
        here = get_or-set_self nis₁ fd opened (no_inode D) a.inside

    -- A connection that is accepted: its descriptor, the address that is stored, and the state.
    pub record Accepted (ep : Endpoint) (peer : FullAddress) (r : Reply N D socket_of of_socket)
        : Type 0 where
      pub stored : Sockaddr
      pub address : r.1 ≡ some stored
      pub ip : stored.ip ≡ peer.ip
      pub port : ntohs stored.port ≡ peer.port
      pub sock : Sock N
      pub found : find_sock_file N D socket_of of_socket r.2 r.0 ≡ ok (some sock)
      pub same : sock.ep ≡ ep
      pub empty : sock.rdbuf ≡ none

    -- Accept4 with room for the address, of a connection from an IPv4 peer: the descriptor that it
    -- returns is a socket on the new endpoint with nothing read yet, and the address and the port of
    -- the peer can be read back from what it stores. The descriptors are less than 2 ^ 31.
    pub sock_accept4-Accepted :
        (h : Host N D socket_of of_socket) (s : Sock N) (addr : Sockaddr) (len : ℕ) (ep : Endpoint)
        (w : World) (peer : FullAddress)
        → sockaddr_size ≤ len
        → N.ep_accept h.net.world s.ep ≡ (value ep, w)
        → N.ep_remote w ep ≡ value peer
        → length addr.ip ≡ length peer.ip
        → peer.port < 2 ^ 16
        → is_negative (alloc_inode D h.files.inodes).0 ≡ false
        → Accepted ep peer (sock_accept4 N D socket_of of_socket h s addr len)
    unfolding sock_accept4
    sock_accept4-Accepted h s addr len ep w peer room accepted remote four port sign =
        rw (le→ltb len sockaddr_size room) (
          subst (λ x. Accepted ep peer (accept_answer N D socket_of of_socket h addr x))
            (sym accepted)
            (subst
              (λ x. Accepted ep peer (
                accept_addr N D socket_of of_socket (with_world N D socket_of of_socket h w) addr ep
                  x))
              (sym remote)
              (record {
                stored = record {
                  family = 2;
                  port = ntohs peer.port;
                  ip = copy_ip addr.ip peer.ip;
                };
                address = refl;
                ip = copy_ip-same addr.ip peer.ip four;
                port = ntohs_twice peer.port port;
                sock = record { fd = (alloc_inode D h.files.inodes).0; ep = ep; rdbuf = none };
                found = alloc-find (with_world N D socket_of of_socket h w) ep sign;
                same = refl;
                empty = refl;
              })))

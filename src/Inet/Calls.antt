-- ===== src/Inet/Calls.antt =====
-- inet/sockfile.go and inet/socket.go: the calls on sockets through the table of open files. A
-- file is a socket if `socket_of`, the type assertion on its device, says so: it is known by its
-- number in the order in which sockets were made.
use eggos.Base.{
  ℕ, Option, none, some, List, [], ◌∷◌, ◌++◌, length, get_elem?, take, drop, bit_and, ltb, ◌==◌,
  ◌||◌, ◌&&◌, not, if◌then◌else◌, Result, ok, ◌>>=◌,
}
use eggos.Isyscall.{Error, errno, other, eagain, ebadf, einval, econnrefused, errno_ret, error_ret}
use eggos.Fs.{Devices, File, device, file_helper, Inode, Fs, alloc_inode, put_file, get_inode}
use eggos.Inet.{
  NetError, would_block, connection_refused, FullAddress, SockOption, reuse_address, broadcast,
  delay, keepalive_enabled, keepalive_interval, keepalive_idle, Answer, value, refused, Network,
  net_error, Sockaddr, sockaddr_size, af_inet, htons, Sock, Sockets, sock_bind, sock_connect,
  sock_listen,
}

-- socketcall's functions, with what their arguments point to.
pub data SocketCall : Type 0 where
  socket : ℕ → ℕ → ℕ → SocketCall
  bind connect : ℕ → Sockaddr → ℕ → SocketCall
  listen : ℕ → ℕ → SocketCall
  accept4 : ℕ → Sockaddr → ℕ → SocketCall
  getsockname getpeername : ℕ → Sockaddr → SocketCall
  setsockopt : ℕ → ℕ → ℕ → ℕ → ℕ → SocketCall
  getsockopt : ℕ → ℕ → ℕ → ℕ → SocketCall
  unsupported : ℕ → SocketCall

-- The option that Setsockopt sets, by its number.
unfoldable pub sock_option : ℕ → ℕ → Option SockOption
sock_option opt v =
    if opt == 2
    then some (reuse_address v)
    else if opt == 6
    then some (broadcast v)
    else if opt == 1
    then some (delay v)
    else if opt == 9
    then some (keepalive_enabled v)
    else if opt == 5
    then some (keepalive_interval v)
    else if opt == 4
    then some (keepalive_idle v)
    else none

-- copy(saddr.ip[:], addr)
abbrev pub copy_ip : List ℕ → List ℕ → List ℕ
copy_ip old ip = take (length old) ip ++ drop (length ip) old

module _ (N : Network) (D : Devices) (socket_of : D.Device → Option ℕ)
    (of_socket : ℕ → D.Device) where
  open N use {Endpoint, World}

  pub record Host : Type 0 where
    pub files : Fs D
    pub net : Sockets N

  -- The value returned, the address stored for the caller, and the state.
  abbrev pub Reply : Type 0
  Reply = ℕ × Option Sockaddr × Host

  abbrev pub with_world : Host → World → Host
  with_world h w = record h { net = record h.net { world = w } }

  abbrev replied : Host → Option Error × World → Reply
  replied h (e, w) = (error_ret e, none, with_world h w)

  -- allocSockFile
  unfoldable pub alloc_sock_file : Host → Endpoint → ℕ × Host
  alloc_sock_file h ep =
      let r = alloc_inode D h.files.inodes in
      (
        r.0,
        record h {
          files = record h.files {
            inodes = put_file D r.1 r.0 (device (of_socket (length h.net.socks)));
          };
          net = record h.net {
            socks = h.net.socks ++ (record { fd = r.0; ep = ep; rdbuf = none } ∷ []);
          };
        },
      )

  -- findSockFile
  abbrev sock_number : Option (File D) → Option ℕ
  sock_number none = none
  sock_number (some (file_helper r w c)) = none
  sock_number (some (device d)) = socket_of d

  abbrev pub sock_at : List (Sock N) → Option ℕ → Option (Sock N)
  sock_at socks none = none
  sock_at socks (some i) = get_elem? socks i

  abbrev pub inode_sock : List (Sock N) → Option (Inode D) → Option (Sock N)
  inode_sock socks none = none
  inode_sock socks (some ni) = sock_at socks (sock_number ni.file)

  unfoldable pub find_sock_file : Host → ℕ → Result (Option (Sock N))
  find_sock_file h fd = get_inode D h.files.inodes fd >>= λ ni. ok (inode_sock h.net.socks ni)

  -- Accept4
  abbrev pub accept_addr : Host → Sockaddr → Endpoint → Answer FullAddress → Reply
  accept_addr h addr ep (refused e) = (error_ret (some other), none, h)
  accept_addr h addr ep (value a) =
      let r = alloc_sock_file h ep in
      (r.0, some (record { family = af_inet; port = htons a.port; ip = copy_ip addr.ip a.ip }), r.1)

  abbrev pub accept_answer : Host → Sockaddr → Answer Endpoint × World → Reply
  accept_answer h addr (refused would_block, w) =
      (error_ret (some (errno eagain)), none, with_world h w)
  accept_answer h addr (refused e, w) = (error_ret (some other), none, with_world h w)
  accept_answer h addr (value ep, w) = accept_addr (with_world h w) addr ep (N.ep_remote w ep)

  unfoldable pub sock_accept4 : Host → Sock N → Sockaddr → ℕ → Reply
  unfolding alloc_sock_file
  sock_accept4 h s addr len =
      if ltb len sockaddr_size
      then (error_ret (some (errno einval)), none, h)
      else accept_answer h addr (N.ep_accept h.net.world s.ep)

  -- Setsockopt: SOL_SOCKET is 1, IPPROTO_TCP 6.
  abbrev set_option : World → Sock N → Option SockOption → Option Error × World
  set_option w s none = (some other, w)
  set_option w s (some o) = let r = N.ep_set_option w s.ep o in (net_error r.0, r.1)

  unfoldable pub sock_setsockopt : World → Sock N → ℕ → ℕ → ℕ → ℕ → Option Error × World
  sock_setsockopt w s level opt v len =
      if not (level == 1 || level == 6)
      then (some other, w)
      else if not (len == 4)
      then (some other, w)
      else set_option w s (sock_option opt v)

  -- Getsockopt
  abbrev option_error : Option NetError → Option Error
  option_error (some connection_refused) = some (errno econnrefused)
  option_error e = net_error e

  unfoldable pub sock_getsockopt : World → Sock N → ℕ → ℕ → ℕ → Option Error × World
  sock_getsockopt w s level opt len =
      if not (level == 1)
      then (some other, w)
      else if not (len == 4)
      then (some other, w)
      else if opt == 4
      then (let r = N.ep_get_error w s.ep in (option_error r.0, r.1))
      else (some other, w)

  -- Getpeername and Getsockname: the port is not stored.
  unfoldable pub name_answer : Host → Sockaddr → Answer FullAddress → Reply
  name_answer h addr (refused e) = (error_ret (some other), none, h)
  name_answer h addr (value a) =
      (0, some (record addr { family = af_inet; ip = copy_ip addr.ip a.ip }), h)

  -- sysSocket: SOCK_STREAM is 1, SOCK_DGRAM 2.
  abbrev new_sock : Host → Answer Endpoint × World → Reply
  new_sock h (refused e, w) = (error_ret (some other), none, with_world h w)
  new_sock h (value ep, w) = let r = alloc_sock_file (with_world h w) ep in (r.0, none, r.1)

  unfoldable pub sys_socket : Host → ℕ → ℕ → Reply
  unfolding alloc_sock_file
  sys_socket h domain type =
      if not (domain == af_inet)
      then (errno_ret einval, none, h)
      else if bit_and type 1 == 0 && bit_and type 2 == 0
      then (errno_ret einval, none, h)
      else new_sock h (N.new_endpoint h.net.world (not (bit_and type 1 == 0)))

  abbrev pub with_sock : Host → ℕ → (Sock N → Reply) → Result Reply
  with_sock h fd k = find_sock_file h fd >>= λ found. elim found [
    | none ↦ ok (errno_ret ebadf, none, h)
    | some s ↦ ok (k s)
  ]

  unfoldable pub socket_call : Host → SocketCall → Result Reply
  unfolding name_answer
  socket_call h (socket domain type proto) = ok (sys_socket h domain type)
  socket_call h (bind fd addr len) =
      with_sock h fd (λ s. replied h (sock_bind N h.net.world s addr len))
  socket_call h (connect fd addr len) =
      with_sock h fd (λ s. replied h (sock_connect N h.net.world s addr len))
  socket_call h (listen fd n) = with_sock h fd (λ s. replied h (sock_listen N h.net.world s n))
  socket_call h (accept4 fd addr len) = with_sock h fd (λ s. sock_accept4 h s addr len)
  socket_call h (getsockname fd addr) =
      with_sock h fd (λ s. name_answer h addr (N.ep_local h.net.world s.ep))
  socket_call h (getpeername fd addr) =
      with_sock h fd (λ s. name_answer h addr (N.ep_remote h.net.world s.ep))
  socket_call h (setsockopt fd level opt v len) =
      with_sock h fd (λ s. replied h (sock_setsockopt h.net.world s level opt v len))
  socket_call h (getsockopt fd level opt len) =
      with_sock h fd (λ s. replied h (sock_getsockopt h.net.world s level opt len))
  socket_call h (unsupported fd) = with_sock h fd (λ s. (error_ret (some other), none, h))

-- ===== src/Inet/Tests.antt =====
-- A stack that gives the views that its state holds, and accepts a connection from 10.0.0.7:8080; a
-- table whose only file beside the console's is a socket.
use eggos.Base.{ℕ, ◌+◌, ◌≡◌, refl, true, Option, none, some, List, [], ◌∷◌, length, ok, ◌>>=◌}
use eggos.Isyscall.{not_exist, ebadf, errno_ret, failed}
use eggos.Kernel.Epoll.{Epoll}
use eggos.Fs.{Devices, file_helper, device, alloc_inode, first_free, get_inode}
use eggos.Inet.{
  Answer, value, refused, would_block, FullAddress, Network, Sockaddr, ntohs, Sock, sock_read,
}
use eggos.Inet.Calls.{
  socket, bind, getpeername, Host, alloc_sock_file, find_sock_file, socket_call, sys_socket,
  name_answer,
}
use eggos.Inet.Stream.{History, fresh, read, after_read, IsStream, Reads-IsStream}

abbrev first_view : List (List ℕ) → Answer (List ℕ) × List (List ℕ)
first_view [] = (refused would_block, [])
first_view (v ∷ vs) = (value v, vs)

abbrev peer : FullAddress
peer = record { ip = 10 ∷ 0 ∷ 0 ∷ 7 ∷ []; port = 8080 }

abbrev network : Network
network = record {
  World = List (List ℕ);
  Endpoint = ℕ;
  ep_read = λ w ep. first_view w;
  ep_write = λ w ep p. ((length p, none), w);
  ep_close = λ w ep. w;
  ep_bind = λ w ep addr. (none, w);
  ep_connect = λ w ep addr. (none, w);
  ep_listen = λ w ep n. (none, w);
  ep_accept = λ w ep. (value (ep + 1), w);
  ep_set_option = λ w ep o. (none, w);
  ep_get_error = λ w ep. (none, w);
  ep_remote = λ w ep. value peer;
  ep_local = λ w ep. value peer;
  new_endpoint = λ w tcp. (value 1, w);
}

-- A device is a socket with its number, or the console.
abbrev files : Devices
files = record {
  Device = Option ℕ;
  World = ℕ;
  read = λ w d n. (([], none), w);
  write = λ w d p. ((length p, none), w);
  close = λ w d. (none, w);
  ioctl = λ w d op arg. none;
  stat = λ w d. none;
  open_file = λ w path flags perm. (failed not_exist, w);
  stat_path = λ w path. failed not_exist;
}

abbrev same : Option ℕ → Option ℕ
same d = d

abbrev as_socket : ℕ → Option ℕ
as_socket i = some i

abbrev listener : Sock network
listener = record { fd = 1; ep = 5; rdbuf = none }

abbrev no_events : Epoll
no_events = record { registered = []; note = 0 }

abbrev host : Host network files same as_socket
host = record {
  files = record {
    inodes =
        record { file = some (file_helper (some none) none none); fd = 0; inuse = true }
        ∷ record { file = some (device (some 0)); fd = 1; inuse = true }
        ∷ [];
    world = 0;
  };
  net = record { world = []; socks = listener ∷ []; epoll = no_events };
}

abbrev unset : Sockaddr
unset = record { family = 0; port = 0; ip = 0 ∷ 0 ∷ 0 ∷ 0 ∷ [] }

ntohs_test : ntohs 0x1f90 ≡ 0x901f
unfolding ntohs
ntohs_test = refl

-- A new socket takes the next descriptor.
socket_test : (socket_call network files same as_socket host (socket 2 1 0) >>= λ r. ok r.0) ≡ ok 2
unfolding socket_call sys_socket alloc_sock_file alloc_inode first_free
socket_test = refl

-- The console is no socket.
not_socket_test :
    socket_call network files same as_socket host (bind 0 unset 8)
    ≡ ok (errno_ret ebadf, none, host)
unfolding socket_call find_sock_file get_inode
not_socket_test = refl

-- The port of the peer is not stored.
getpeername_test :
    (socket_call network files same as_socket host (getpeername 1 unset) >>= λ r. ok r.1)
    ≡ ok (some (record { family = 2; port = 0; ip = 10 ∷ 0 ∷ 0 ∷ 7 ∷ [] }))
unfolding socket_call find_sock_file get_inode name_answer
getpeername_test = refl

abbrev start : History network
start = record { sock = listener; given = []; returned = [] }

abbrev views : List (List ℕ)
views = (1 ∷ 2 ∷ 3 ∷ []) ∷ (4 ∷ []) ∷ []

abbrev once : History network
once = after_read network start views (sock_read network views no_events listener 2)

abbrev twice : History network
twice = after_read network once views (sock_read network views no_events once.sock 2)

twice_test : twice.returned ≡ 1 ∷ 2 ∷ 3 ∷ []
unfolding sock_read
twice_test = refl

Reads-IsStream_example : IsStream network twice
Reads-IsStream_example =
    Reads-IsStream network {a = start} (read (read fresh views no_events 2) views no_events 2) refl

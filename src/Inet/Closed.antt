-- ===== src/Inet/Closed.antt =====
-- inet/socket.go: what becomes of a socket that is closed as a file.
use eggos.Base.{ℕ, ◌<◌, ◌≡◌, refl, sym, subst, true, false, Option, none, some, length, ok}
use eggos.Base.Words.{is_negative}
use eggos.Isyscall.{ebadf, errno_ret}
use eggos.Fs.{Devices, Fs, Stored, File, get_inode}
use eggos.Fs.Calls.{close, fs_call}
use eggos.Fs.Table.{entry}
use eggos.Fs.Errors.{close-free}
use eggos.Inet.{Network, Sock}
use eggos.Inet.Calls.{
  SocketCall, socket, bind, connect, listen, accept4, getsockname, getpeername, setsockopt,
  getsockopt, unsupported, Host, Reply, find_sock_file, with_sock, socket_call,
}

module _ (N : Network) (D : Devices) (socket_of : D.Device → Option ℕ)
    (of_socket : ℕ → D.Device) where
  -- The descriptor that a socket call is about.
  abbrev pub socket_target : SocketCall → Option ℕ
  socket_target (socket domain type proto) = none
  socket_target (bind fd addr len) = some fd
  socket_target (connect fd addr len) = some fd
  socket_target (listen fd n) = some fd
  socket_target (accept4 fd addr len) = some fd
  socket_target (getsockname fd addr) = some fd
  socket_target (getpeername fd addr) = some fd
  socket_target (setsockopt fd level opt v len) = some fd
  socket_target (getsockopt fd level opt len) = some fd
  socket_target (unsupported fd) = some fd

  some_injective : (a b : ℕ) → ◌≡◌ {A = Option ℕ} (some a) (some b) → a ≡ b
  some_injective a b h = cc

  find-free :
      (h : Host N D socket_of of_socket) (fd : ℕ)
      → get_inode D h.files.inodes fd ≡ ok none
      → find_sock_file N D socket_of of_socket h fd ≡ ok none
  unfolding find_sock_file
  find-free h fd e = rw e refl

  with_sock-none :
      (h : Host N D socket_of of_socket) (x fd : ℕ) (k : Sock N → Reply N D socket_of of_socket)
      → find_sock_file N D socket_of of_socket h fd ≡ ok none
      → x ≡ fd
      → with_sock N D socket_of of_socket h x k ≡ ok (errno_ret ebadf, none, h)
  with_sock-none h x fd k e same =
      subst (λ y. with_sock N D socket_of of_socket h y k ≡ ok (errno_ret ebadf, none, h))
        (sym same) (rw e refl)

  socket_call-free :
      (h : Host N D socket_of of_socket) (c : SocketCall) (fd : ℕ)
      → socket_target c ≡ some fd
      → get_inode D h.files.inodes fd ≡ ok none
      → socket_call N D socket_of of_socket h c ≡ ok (errno_ret ebadf, none, h)
  unfolding socket_call
  socket_call-free h (socket domain type proto) fd t e = cc
  socket_call-free h (bind x addr len) fd t e =
      with_sock-none h x fd _ (find-free h fd e) (some_injective x fd t)
  socket_call-free h (connect x addr len) fd t e =
      with_sock-none h x fd _ (find-free h fd e) (some_injective x fd t)
  socket_call-free h (listen x n) fd t e =
      with_sock-none h x fd _ (find-free h fd e) (some_injective x fd t)
  socket_call-free h (accept4 x addr len) fd t e =
      with_sock-none h x fd _ (find-free h fd e) (some_injective x fd t)
  socket_call-free h (getsockname x addr) fd t e =
      with_sock-none h x fd _ (find-free h fd e) (some_injective x fd t)
  socket_call-free h (getpeername x addr) fd t e =
      with_sock-none h x fd _ (find-free h fd e) (some_injective x fd t)
  socket_call-free h (setsockopt x level opt v len) fd t e =
      with_sock-none h x fd _ (find-free h fd e) (some_injective x fd t)
  socket_call-free h (getsockopt x level opt len) fd t e =
      with_sock-none h x fd _ (find-free h fd e) (some_injective x fd t)
  socket_call-free h (unsupported x) fd t e =
      with_sock-none h x fd _ (find-free h fd e) (some_injective x fd t)

  -- A descriptor that was closed as a file is no socket any more: every socket call on it fails with
  -- EBADF and changes nothing.
  pub socket_call-closed :
      (h : Host N D socket_of of_socket) (c : SocketCall) (fd : ℕ) (f : File D)
      → is_negative fd ≡ false
      → fd < length h.files.inodes
      → (entry D h.files.inodes fd).inuse ≡ true
      → (entry D h.files.inodes fd).file ≡ some f
      → socket_target c ≡ some fd
      → (r : ℕ × Stored D × Fs D) × (fs_call D h.files (close fd) ≡ ok r)
        × (socket_call N D socket_of of_socket (record h { files = r.2 }) c
            ≡ ok (errno_ret ebadf, none, record h { files = r.2 }))
  socket_call-closed h c fd f sign below used has t =
      let (r, closed, free) = close-free D h.files fd f sign below used has in
      (r, closed, socket_call-free (record h { files = r.2 }) c fd t free)

-- ===== src/Fs/Calls.antt =====
-- fs/vfs.go: the system calls on files, each with its error paths.
use eggos.Base.{
  ℕ, suc, Option, none, some, List, [], ◌∷◌, length, get_or, set, ◌==◌, if◌then◌else◌, Result, ok,
  ◌>>=◌,
}
use eggos.Isyscall.{Error, eof, enoent, ebadf, einval, errno_ret, error_ret, is_not_exist}
use eggos.Fs.{
  Devices, Attempt, done, failed, Stat, File, device, file_helper, Inode, Fs, no_inode, release,
  put_file, alloc_inode, alloc_file_node, get_inode, file_read, file_write, file_close, file_ioctl,
  nothing, bytes, status, Reply, with_file,
}

-- The registered calls of fscall, with their arguments; a descriptor is a word.
pub data Call : Type 0 where
  openat : List ℕ → ℕ → ℕ → Call
  read : ℕ → ℕ → Call
  write : ℕ → List ℕ → Call
  close : ℕ → Call
  fstat : ℕ → Call
  ioctl : ℕ → ℕ → ℕ → Call

module _ (D : Devices) where
  open D use {Device, World}

  -- sysRead and the reply that fscall makes of it.
  abbrev read_ret : List ℕ → Option Error → ℕ
  read_ret [] none = 0
  read_ret [] (some eof) = 0
  read_ret [] (some e) = error_ret (some e)
  read_ret (b ∷ p) e = suc (length p)

  abbrev pub read_reply : List (Inode D) → (List ℕ × Option Error) × World → Reply D
  read_reply nis ((p, e), w) = (read_ret p e, bytes p, record { inodes = nis; world = w })

  unfoldable pub sys_read : Fs D → Option (File D) → ℕ → Result (Reply D)
  sys_read s file n = with_file D file (λ f. read_reply s.inodes (file_read D s.world f n))

  -- sysWrite
  abbrev write_ret : ℕ → Option Error → ℕ
  write_ret n e = if n == 0 then error_ret e else n

  abbrev pub write_reply : List (Inode D) → (ℕ × Option Error) × World → Reply D
  write_reply nis ((n, e), w) = (write_ret n e, nothing, record { inodes = nis; world = w })

  unfoldable pub sys_write : Fs D → Option (File D) → List ℕ → Result (Reply D)
  sys_write s file p = with_file D file (λ f. write_reply s.inodes (file_write D s.world f p))

  -- sysClose: the entry is released whatever the device says.
  abbrev pub close_reply : List (Inode D) → ℕ → Option Error × World → Reply D
  close_reply nis fd (e, w) = (
    error_ret e,
    nothing,
    record { inodes = set nis fd (release D (get_or nis fd (no_inode D))); world = w },
  )

  unfoldable pub sys_close : Fs D → ℕ → Option (File D) → Result (Reply D)
  sys_close s fd file = with_file D file (λ f. close_reply s.inodes fd (file_close D s.world f))

  -- sysStat: a fileHelper is no afero.File, and a nil file is none either.
  abbrev pub stat_reply : Fs D → Option (Attempt Stat) → Reply D
  stat_reply s none = (errno_ret einval, nothing, s)
  stat_reply s (some (failed e)) = (error_ret (some e), nothing, s)
  stat_reply s (some (done st)) = (0, status st, s)

  unfoldable pub sys_stat : Fs D → Option (File D) → Reply D
  sys_stat s (some (device d)) = stat_reply s (D.stat s.world d)
  sys_stat s (some (file_helper r w c)) = (errno_ret einval, nothing, s)
  sys_stat s none = (errno_ret einval, nothing, s)

  -- sysIoctl
  abbrev pub ioctl_reply : List (Inode D) → Option Error × World → Reply D
  ioctl_reply nis (e, w) = (error_ret e, nothing, record { inodes = nis; world = w })

  unfoldable pub sys_ioctl : Fs D → Option (File D) → ℕ → ℕ → Reply D
  sys_ioctl s (some f) op arg = ioctl_reply s.inodes (file_ioctl D s.world f op arg)
  sys_ioctl s none op arg = (errno_ret einval, nothing, s)

  -- sysOpen: the entry is taken before the file is opened.
  abbrev pub opened : ℕ × List (Inode D) → Attempt Device × World → Reply D
  opened (fd, nis) (done d, w) =
      (fd, nothing, record { inodes = put_file D nis fd (device d); world = w })
  opened (fd, nis) (failed e, w) = (
    (if is_not_exist e then errno_ret enoent else error_ret (some e)),
    nothing,
    record { inodes = nis; world = w },
  )

  unfoldable pub sys_open : Fs D → List ℕ → ℕ → ℕ → Reply D
  sys_open s path flags perm = opened (alloc_inode D s.inodes) (D.open_file s.world path flags perm)

  -- What fscall does with a descriptor that GetInode does not find.
  abbrev pub with_inode : Fs D → ℕ → (Inode D → Result (Reply D)) → Result (Reply D)
  with_inode s fd k = get_inode D s.inodes fd >>= λ found. elim found [
    | none ↦ ok (errno_ret ebadf, nothing, s)
    | some ni ↦ k ni
  ]

  unfoldable pub fs_call : Fs D → Call → Result (Reply D)
  fs_call s (openat path flags perm) = ok (sys_open s path flags perm)
  fs_call s (read fd n) = with_inode s fd (λ ni. sys_read s ni.file n)
  fs_call s (write fd p) = with_inode s fd (λ ni. sys_write s ni.file p)
  fs_call s (close fd) = with_inode s fd (λ ni. sys_close s fd ni.file)
  fs_call s (fstat fd) = with_inode s fd (λ ni. ok (sys_stat s ni.file))
  fs_call s (ioctl fd op arg) = with_inode s fd (λ ni. ok (sys_ioctl s ni.file op arg))

  -- sysFstatat64
  unfoldable pub sys_fstatat : Fs D → List ℕ → Reply D
  sys_fstatat s path = elim (D.stat_path s.world path) [
    | failed e ↦ ((if is_not_exist e then errno_ret enoent else error_ret (some e)), nothing, s)
    | done st ↦ (0, status st, s)
  ]

  -- vfsInit: standard input, output and error, and the descriptor for epoll.
  unfoldable pub vfs_init : Device → List (Inode D) → List (Inode D)
  vfs_init c nis =
      let a = (alloc_file_node D nis (file_helper (some c) none none)).1 in
      let b = (alloc_file_node D a (file_helper none (some c) none)).1 in
      let e = (alloc_file_node D b (file_helper none (some c) none)).1 in
      (alloc_file_node D e (file_helper none none none)).1

-- ===== src/Fs/Isolation.antt =====
-- fs/vfs.go: a call on one descriptor leaves the other open ones alone.
use eggos.Base.{
  ℕ, ◌≡◌, ◌≢◌, refl, sym, ap, ◌∙◌, subst, true, Option, none, some, List, Result, ok, panic, ◌>>=◌,
  get_or-set_ne,
}
use eggos.Isyscall.{ebadf, errno_ret}
use eggos.Fs.{
  Devices, Attempt, done, failed, Stat, File, file_helper, device, Inode, Fs, no_inode, alloc_inode,
  get_inode, nothing, Reply, with_file,
}
use eggos.Fs.Calls.{
  Call, openat, read, write, close, fstat, ioctl, fs_call, sys_open, sys_read, sys_write, sys_close,
  sys_stat, sys_ioctl, opened, stat_reply,
}
use eggos.Fs.Table.{
  entry, IsTidy, Allocated, alloc_inode-Allocated, alloc_inode-IsTidy, put_file-IsTidy,
  release-IsTidy,
}
use eggos.Fs.Errors.{target}

module _ (D : Devices) (s : Fs D) (j : ℕ) (tidy : IsTidy D s.inodes) where
  open D use {Device, World}

  -- The table is in order, and entry j is what it was.
  abbrev Keeps : List (Inode D) → Type 0
  Keeps nis = IsTidy D nis × (entry D nis j ≡ entry D s.inodes j)

  abbrev After : Result (Reply D) → Type 0
  After (ok r) = Keeps r.2.inodes
  After panic = ℕ

  with_file-After :
      (x : Option (File D)) (k : File D → Reply D)
      → ((f : File D) → Keeps (k f).2.inodes)
      → After (with_file D x k)
  with_file-After none k h = 0
  with_file-After (some f) k h = h f

  found-After :
      (m : Result (Option (Inode D))) (k : Inode D → Result (Reply D))
      → ((ni : Inode D) → After (k ni))
      → After
          (m >>= λ found. elim found [ none ↦ ok (errno_ret ebadf, nothing, s) | some ni ↦ k ni ])
  found-After panic k h = 0
  found-After (ok none) k h = (tidy, refl)
  found-After (ok (some ni)) k h = h ni

  stat-Keeps : (x : Option (File D)) → Keeps (sys_stat D s x).2.inodes
  unfolding sys_stat
  stat-Keeps none = (tidy, refl)
  stat-Keeps (some (file_helper r w c)) = (tidy, refl)
  stat-Keeps (some (device d)) = stat_reply-Keeps (D.stat s.world d)
    where
      stat_reply-Keeps : (a : Option (Attempt Stat)) → Keeps (stat_reply D s a).2.inodes
      stat_reply-Keeps none = (tidy, refl)
      stat_reply-Keeps (some (failed e)) = (tidy, refl)
      stat_reply-Keeps (some (done st)) = (tidy, refl)

  ioctl-Keeps : (x : Option (File D)) (op arg : ℕ) → Keeps (sys_ioctl D s x op arg).2.inodes
  unfolding sys_ioctl
  ioctl-Keeps none op arg = (tidy, refl)
  ioctl-Keeps (some f) op arg = (tidy, refl)

  module _ (used : (entry D s.inodes j).inuse ≡ true) where
    -- The entry that AllocInode takes was free, so it is not j.
    other : (alloc_inode D s.inodes).0 ≢ j
    other e =
        let free = (alloc_inode-Allocated D s.inodes).was_free in
        (cc (ap (λ i. (entry D s.inodes i).inuse) e, free, used))

    opened-Keeps :
        (a : Attempt Device × World) → Keeps (opened D (alloc_inode D s.inodes) a).2.inodes
    opened-Keeps (done d, w) = (
      put_file-IsTidy D _ (alloc_inode D s.inodes).0 (device d) (alloc_inode-IsTidy D s.inodes tidy)
          a.taken,
      get_or-set_ne (alloc_inode D s.inodes).1 (alloc_inode D s.inodes).0 j _ (no_inode D) other
          ∙ a.others j (λ e. other (sym e)),
    )
      where
        a : Allocated D s.inodes (alloc_inode D s.inodes)
        a = alloc_inode-Allocated D s.inodes
    opened-Keeps (failed e, w) = (
      alloc_inode-IsTidy D s.inodes tidy,
      (alloc_inode-Allocated D s.inodes).others j (λ e. other (sym e)),
    )

    fs_call-After : (c : Call) → target c ≢ some j → After (fs_call D s c)
    unfolding fs_call sys_open sys_read sys_write sys_close
    fs_call-After (openat path flags perm) ne = opened-Keeps (D.open_file s.world path flags perm)
    fs_call-After (read fd n) ne =
        found-After (get_inode D s.inodes fd) (λ ni. sys_read D s ni.file n)
          λ ni. with_file-After ni.file _ (λ f. (tidy, refl))
    fs_call-After (write fd p) ne =
        found-After (get_inode D s.inodes fd) (λ ni. sys_write D s ni.file p)
          λ ni. with_file-After ni.file _ (λ f. (tidy, refl))
    fs_call-After (close fd) ne =
        found-After (get_inode D s.inodes fd) (λ ni. sys_close D s fd ni.file)
          λ ni. with_file-After ni.file _ (λ f. (
            release-IsTidy D s.inodes fd tidy,
            get_or-set_ne s.inodes fd j _ (no_inode D) (λ e. ne (ap some e)),
          ))
    fs_call-After (fstat fd) ne =
        found-After (get_inode D s.inodes fd) (λ ni. ok (sys_stat D s ni.file))
          λ ni. stat-Keeps ni.file
    fs_call-After (ioctl fd op arg) ne =
        found-After (get_inode D s.inodes fd) (λ ni. ok (sys_ioctl D s ni.file op arg))
          λ ni. ioctl-Keeps ni.file op arg

    -- A call that returns keeps the table in order (an entry in use knows its descriptor, a free
    -- one holds no file) and leaves an open descriptor that it is not about as it was.
    pub fs_call_keeps :
        (c : Call) (r : Reply D)
        → target c ≢ some j
        → fs_call D s c ≡ ok r
        → IsTidy D r.2.inodes × (entry D r.2.inodes j ≡ entry D s.inodes j)
    fs_call_keeps c r ne e = subst After e (fs_call-After c ne)

-- ===== src/Fs/Errors.antt =====
-- fs/vfs.go: descriptors that are closed, negative, or left behind by a failed open.
use eggos.Base.{
  ℕ, ◌<◌, ◌≡◌, refl, ap, ◌∙◌, true, false, Option, none, some, List, length, set, if◌then◌else◌,
  Result, ok, panic, arith, get_or-set_self, lt→leb,
}
use eggos.Base.Words.{is_negative}
use eggos.Isyscall.{Error, enoent, ebadf, errno_ret, error_ret, is_not_exist}
use eggos.Fs.{
  Devices, failed, File, Inode, Fs, no_inode, release, alloc_inode, get_inode, file_close, nothing,
  Reply,
}
use eggos.Fs.Calls.{
  Call, openat, read, write, close, fstat, ioctl, fs_call, sys_open, sys_read, sys_write, sys_close,
  sys_stat, sys_ioctl, close_reply, opened, with_inode,
}
use eggos.Fs.Table.{entry, no_file, IsTidy, fits, some_injective, Allocated, alloc_inode-Allocated}

-- The descriptor that a call is about.
abbrev pub target : Call → Option ℕ
target (openat path flags perm) = none
target (read fd n) = some fd
target (write fd p) = some fd
target (close fd) = some fd
target (fstat fd) = some fd
target (ioctl fd op arg) = some fd

module _ (D : Devices) where
  open D use {Device, World}

  get_inode-negative :
      (nis : List (Inode D)) (fd : ℕ) → is_negative fd ≡ true → get_inode D nis fd ≡ panic
  unfolding get_inode
  get_inode-negative nis fd h = rw h refl

  get_inode-free :
      (nis : List (Inode D)) (fd : ℕ)
      → is_negative fd ≡ false
      → (entry D nis fd).inuse ≡ false
      → get_inode D nis fd ≡ ok none
  unfolding get_inode
  get_inode-free nis fd h free = rw (h, free) (ground arith)

  pub get_inode-used :
      (nis : List (Inode D)) (fd : ℕ)
      → is_negative fd ≡ false
      → fd < length nis
      → (entry D nis fd).inuse ≡ true
      → get_inode D nis fd ≡ ok (some (entry D nis fd))
  unfolding get_inode
  get_inode-used nis fd h below used = rw (h, lt→leb _ _ below, used) refl

  with_inode-panic :
      (s : Fs D) (fd : ℕ) (k : Inode D → Result (Reply D))
      → get_inode D s.inodes fd ≡ panic
      → with_inode D s fd k ≡ panic
  with_inode-panic s fd k h = rw h refl

  with_inode-none :
      (s : Fs D) (fd : ℕ) (k : Inode D → Result (Reply D))
      → get_inode D s.inodes fd ≡ ok none
      → with_inode D s fd k ≡ ok (errno_ret ebadf, nothing, s)
  with_inode-none s fd k h = rw h refl

  with_inode-some :
      (s : Fs D) (fd : ℕ) (ni : Inode D) (k : Inode D → Result (Reply D))
      → get_inode D s.inodes fd ≡ ok (some ni)
      → with_inode D s fd k ≡ k ni
  with_inode-some s fd ni k h = rw h refl

  -- Each call on a descriptor looks it up first.
  fs_call-with_inode :
      (s : Fs D) (c : Call) (fd : ℕ)
      → target c ≡ some fd
      → (k : Inode D → Result (Reply D)) × (fs_call D s c ≡ with_inode D s fd k)
  unfolding fs_call
  fs_call-with_inode s (openat path flags perm) fd t = cc
  fs_call-with_inode s (read x n) fd t =
      (_, ap (λ y. with_inode D s y (λ ni. sys_read D s ni.file n)) (some_injective D x fd t))
  fs_call-with_inode s (write x p) fd t =
      (_, ap (λ y. with_inode D s y (λ ni. sys_write D s ni.file p)) (some_injective D x fd t))
  fs_call-with_inode s (close x) fd t = (
    λ ni. sys_close D s fd ni.file,
    ap (λ y. with_inode D s y (λ ni. sys_close D s y ni.file)) (some_injective D x fd t),
  )
  fs_call-with_inode s (fstat x) fd t =
      (_, ap (λ y. with_inode D s y (λ ni. ok (sys_stat D s ni.file))) (some_injective D x fd t))
  fs_call-with_inode s (ioctl x op arg) fd t = (
    _,
    ap (λ y. with_inode D s y (λ ni. ok (sys_ioctl D s ni.file op arg))) (some_injective D x fd t),
  )

  -- A negative descriptor, such as close(-1) passes, panics in every call that takes one.
  pub fs_call_negative :
      (s : Fs D) (c : Call) (fd : ℕ)
      → target c ≡ some fd
      → is_negative fd ≡ true
      → fs_call D s c ≡ panic
  fs_call_negative s c fd t h =
      let (k, e) = fs_call-with_inode s c fd t in
      e ∙ with_inode-panic s fd k (get_inode-negative s.inodes fd h)

  released-free :
      (nis : List (Inode D)) (fd : ℕ)
      → fd < length nis
      → (entry D (set nis fd (release D (entry D nis fd))) fd).inuse ≡ false
  released-free nis fd below =
      ap Inode.inuse (get_or-set_self nis fd (release D (entry D nis fd)) (no_inode D) below)

  -- A close of a descriptor that holds a file returns, and the descriptor is free.
  pub close-free :
      (s : Fs D) (fd : ℕ) (f : File D)
      → is_negative fd ≡ false
      → fd < length s.inodes
      → (entry D s.inodes fd).inuse ≡ true
      → (entry D s.inodes fd).file ≡ some f
      → (r : Reply D) × (fs_call D s (close fd) ≡ ok r) × (get_inode D r.2.inodes fd ≡ ok none)
  unfolding fs_call sys_close
  close-free s fd f sign below used has = (
    r,
    with_inode-some s fd (entry D s.inodes fd) (λ ni. sys_close D s fd ni.file)
          (get_inode-used s.inodes fd sign below used)
        ∙ ap (sys_close D s fd) has,
    get_inode-free r.2.inodes fd sign (released-free s.inodes fd below),
  )
    where
      r : Reply D
      r = close_reply D s.inodes fd (file_close D s.world f)

  -- Closing a descriptor that holds a file releases it whatever the device answers: after it every
  -- call on the descriptor fails with EBADF and changes nothing.
  pub fs_call-close :
      (s : Fs D) (fd : ℕ) (f : File D) (c : Call)
      → is_negative fd ≡ false
      → fd < length s.inodes
      → (entry D s.inodes fd).inuse ≡ true
      → (entry D s.inodes fd).file ≡ some f
      → target c ≡ some fd
      → (r : Reply D) × (fs_call D s (close fd) ≡ ok r)
        × (fs_call D r.2 c ≡ ok (errno_ret ebadf, nothing, r.2))
  fs_call-close s fd f c sign below used has t =
      let (r, closed, free) = close-free s fd f sign below used has in
      let (k, e) = fs_call-with_inode r.2 c fd t in (r, closed, e ∙ with_inode-none r.2 fd k free)

  no_file-none : (x : Option (File D)) → no_file D x ≡ true → x ≡ none
  no_file-none none h = refl
  no_file-none (some f) h = cc

  fits-free :
      (i : ℕ) (ni : Inode D) → fits D i ni ≡ true → ni.inuse ≡ false → no_file D ni.file ≡ true
  unfolding fits
  fits-free i ni h free = ground arith

  -- An open that fails keeps its entry, in use and without a file: the next read of that
  -- descriptor panics.
  pub open_failed_read :
      (s : Fs D) (path : List ℕ) (flags perm n : ℕ) (e : Error) (w : World)
      → IsTidy D s.inodes
      → is_negative (alloc_inode D s.inodes).0 ≡ false
      → D.open_file s.world path flags perm ≡ (failed e, w)
      → (r : Reply D) × (fs_call D s (openat path flags perm) ≡ ok r)
        × (r.0 ≡ (if is_not_exist e then errno_ret enoent else error_ret (some e)))
        × (fs_call D r.2 (read (alloc_inode D s.inodes).0 n) ≡ panic)
  unfolding fs_call sys_open sys_read
  open_failed_read s path flags perm n e w t sign h = (
    r,
    ap (λ x. ok (opened D (alloc_inode D s.inodes) x)) h,
    refl,
    with_inode-some r.2 fd (entry D r.2.inodes fd) (λ ni. sys_read D r.2 ni.file n)
          (get_inode-used r.2.inodes fd sign a.inside a.taken)
        ∙ ap (λ x. sys_read D r.2 x n) bare,
  )
    where
      fd : ℕ
      fd = (alloc_inode D s.inodes).0

      r : Reply D
      r = opened D (alloc_inode D s.inodes) (failed e, w)

      a : Allocated D s.inodes (alloc_inode D s.inodes)
      a = alloc_inode-Allocated D s.inodes

      bare : (entry D r.2.inodes fd).file ≡ none
      bare =
          no_file-none (entry D r.2.inodes fd).file
            (a.no_file ∙ fits-free fd (entry D s.inodes fd) (t fd) a.was_free)

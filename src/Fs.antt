-- ===== src/Fs.antt =====
-- fs/vfs.go: the table of open files and the system calls on it. A device is what the files stand
-- on (the console, a file of the mounted file systems): its methods are parameters, over a state
-- of their own, the world. User memory is not modelled: a call carries the path or the bytes that
-- it points to, and its reply the bytes that are stored for it.
pub mod Table
pub mod Calls
pub mod Errors
pub mod Names
pub mod Isolation
pub mod Tests
use eggos.Base.{
  ℕ, zero, suc, ◌+◌, ◌-◌, Bool, true, false, Option, none, some, List, [], ◌∷◌, ◌++◌, length,
  get_or, set, ltb, leb, ◌==◌, if◌then◌else◌, Result, ok, panic, ◌>>=◌,
}
use eggos.Base.Words.{word, is_negative}
pub use eggos.Isyscall.{Attempt, done, failed}
use eggos.Isyscall.{
  Error, errno, not_exist, eof, other, enoent, ebadf, einval, erofs, errno_ret, error_ret,
  is_not_exist,
}

-- What Stat reports.
pub record Stat : Type 0 where
  pub mode : ℕ
  pub mtime : ℕ
  pub size : ℕ

-- The devices: a read returns bytes and perhaps an error, a write how many bytes it took. `none`
-- from ioctl and stat means that the device does not have the method.
pub record Devices : Type 1 where
  pub Device : Type 0
  pub World : Type 0
  pub read : World → Device → ℕ → (List ℕ × Option Error) × World
  pub write : World → Device → List ℕ → (ℕ × Option Error) × World
  pub close : World → Device → Option Error × World
  pub ioctl : World → Device → ℕ → ℕ → Option (Option Error × World)
  pub stat : World → Device → Option (Attempt Stat)
  pub open_file : World → List ℕ → ℕ → ℕ → Attempt Device × World
  pub stat_path : World → List ℕ → Attempt Stat

module _ (D : Devices) where
  open D use {Device, World}

  -- io.ReadWriteCloser: a fileHelper with its reader, writer and closer, or a device.
  pub data File : Type 0 where
    file_helper : Option Device → Option Device → Option Device → File
    device : Device → File

  pub record Inode : Type 0 where
    pub file : Option File
    pub fd : ℕ
    pub inuse : Bool

  -- `inodes`, and the state of the devices.
  pub record Fs : Type 0 where
    pub inodes : List Inode
    pub world : World

  abbrev pub no_inode : Inode
  no_inode = record { file = none; fd = 0; inuse = false }

  abbrev pub release : Inode → Inode
  release ni = record { file = none; fd = word - 1; inuse = false }

  -- The loop of AllocInode, at index i: the first entry that is not in use.
  unfoldable pub first_free : ℕ → List Inode → Option ℕ
  first_free i [] = none
  first_free i (ni ∷ nis) = let rest = first_free (suc i) nis in if ni.inuse then rest else some i

  abbrev pub or_zero : Option ℕ → ℕ
  or_zero none = 0
  or_zero (some i) = i

  -- A slot at index 0 counts as none.
  unfoldable pub alloc_inode : List Inode → ℕ × List Inode
  alloc_inode nis =
      let fd = or_zero (first_free 0 nis) in
      if fd == 0
      then (length nis, nis ++ (record { file = none; fd = length nis; inuse = true } ∷ []))
      else (fd, set nis fd (record (get_or nis fd no_inode) { fd = fd; inuse = true }))

  abbrev pub put_file : List Inode → ℕ → File → List Inode
  put_file nis fd f = set nis fd (record (get_or nis fd no_inode) { file = some f })

  unfoldable pub alloc_file_node : List Inode → File → ℕ × List Inode
  alloc_file_node nis f = let r = alloc_inode nis in (r.0, put_file r.1 r.0 f)

  -- GetInode: a descriptor is an int, and a negative one is an index out of range.
  unfoldable pub get_inode : List Inode → ℕ → Result (Option Inode)
  get_inode nis fd =
      if is_negative fd
      then panic
      else if leb (length nis) fd
      then ok none
      else if (get_or nis fd no_inode).inuse
      then ok (some (get_or nis fd no_inode))
      else ok none

  -- The methods of fileHelper and of a device behind the interface.
  unfoldable pub file_read : World → File → ℕ → (List ℕ × Option Error) × World
  file_read w (file_helper (some r) _ _) n = D.read w r n
  file_read w (file_helper none _ _) n = (([], some (errno einval)), w)
  file_read w (device d) n = D.read w d n

  unfoldable pub file_write : World → File → List ℕ → (ℕ × Option Error) × World
  file_write w (file_helper _ (some o) _) p = D.write w o p
  file_write w (file_helper _ none _) p = ((0, some (errno erofs)), w)
  file_write w (device d) p = D.write w d p

  unfoldable pub file_close : World → File → Option Error × World
  file_close w (file_helper _ _ (some c)) = D.close w c
  file_close w (file_helper _ _ none) = (some (errno einval), w)
  file_close w (device d) = D.close w d

  abbrev ioctl_or : ℕ → World → Option (Option Error × World) → Option Error × World
  ioctl_or code w none = (some (errno code), w)
  ioctl_or code w (some r) = r

  -- fileHelper.Ioctl goes to the reader, or else to the writer, of which neither may be there.
  unfoldable pub file_ioctl : World → File → ℕ → ℕ → Option Error × World
  file_ioctl w (file_helper (some r) _ _) op arg = ioctl_or ebadf w (D.ioctl w r op arg)
  file_ioctl w (file_helper none (some o) _) op arg = ioctl_or ebadf w (D.ioctl w o op arg)
  file_ioctl w (file_helper none none _) op arg = (some (errno ebadf), w)
  file_ioctl w (device d) op arg = ioctl_or einval w (D.ioctl w d op arg)

  -- The value that a call returns, what it stores for the caller, and the state behind it.
  pub data Stored : Type 0 where
    nothing : Stored
    bytes : List ℕ → Stored
    status : Stat → Stored

  abbrev pub Reply : Type 0
  Reply = ℕ × Stored × Fs

  -- A method call through a nil interface panics.
  abbrev pub with_file {ℓ} : {A : Type ℓ} → Option File → (File → A) → Result A
  with_file none k = panic
  with_file (some f) k = ok (k f)

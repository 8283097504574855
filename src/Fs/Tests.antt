-- ===== src/Fs/Tests.antt =====
-- The table behind vfsInit, over a console that reads what the world holds, and file systems that
-- have one file.
use eggos.Base.{
  ℕ, zero, suc, ◌-◌, ◌≡◌, refl, true, none, some, List, [], ◌∷◌, ◌++◌, set, length, take, drop,
  ◌==◌, if◌then◌else◌, Result, ok, panic, ◌>>=◌,
}
use eggos.Base.Words.{word}
use eggos.Isyscall.{not_exist, enoent, einval, errno_ret, error_ret, is_not_exist}
use eggos.Fs.{
  Devices, done, failed, File, file_helper, Inode, Fs, release, nothing, Reply, first_free,
  alloc_inode, alloc_file_node, get_inode, file_read, file_write, file_close,
}
use eggos.Fs.Calls.{
  Call, openat, read, write, close, fs_call, sys_open, sys_read, sys_write, sys_close, vfs_init,
}
use eggos.Fs.Table.{entry, IsTidy, fits}
use eggos.Fs.Errors.{open_failed_read}
use eggos.Fs.Isolation.{fs_call_keeps}

abbrev files : Devices
files = record {
  Device = ℕ;
  World = List ℕ;
  read = λ w d n. ((take n w, none), drop n w);
  write = λ w d p. ((length p, none), w ++ p);
  close = λ w d. (none, w);
  ioctl = λ w d op arg. none;
  stat = λ w d. some (done (record { mode = 420; mtime = 0; size = length w }));
  open_file = λ w path flags perm. (if length path == 3 then done 7 else failed not_exist, w);
  stat_path = λ w path. failed not_exist;
}

abbrev inode : File files → ℕ → Inode files
inode f n = record { file = some f; fd = n; inuse = true }

abbrev start : Fs files
start = record {
  inodes =
      inode (file_helper (some 1) none none) 0
      ∷ inode (file_helper none (some 1) none) 1
      ∷ inode (file_helper none (some 1) none) 2
      ∷ inode (file_helper none none none) 3
      ∷ [];
  world = b'h' ∷ b'i' ∷ [];
}

vfs_init_test : vfs_init files 1 [] ≡ start.inodes
unfolding vfs_init alloc_file_node alloc_inode first_free
vfs_init_test = refl

abbrev ret : Result (Reply files) → Result ℕ
ret m = m >>= λ r. ok r.0

abbrev then_call : Result (Reply files) → Call → Result (Reply files)
then_call m c = m >>= λ r. fs_call files r.2 c

read_test : ret (fs_call files start (read 0 10)) ≡ ok 2
unfolding fs_call sys_read get_inode file_read
read_test = refl

write_to_stdin_test : ret (fs_call files start (write 0 (1 ∷ []))) ≡ ok (word - 30)
unfolding fs_call sys_write get_inode file_write
write_to_stdin_test = refl

-- A file is opened at 4, closed, and its entry is used again.
reopen_test :
    ret (
      then_call
        (then_call (fs_call files start (openat (1 ∷ 2 ∷ 3 ∷ []) 0 0)) (close 4))
        (openat (1 ∷ 2 ∷ 3 ∷ []) 0 0))
    ≡ ok 4
unfolding fs_call sys_open sys_close alloc_inode first_free get_inode file_close
reopen_test = refl

-- The entry of descriptor 0 is never used again.
close_stdin_test :
    ret (then_call (fs_call files start (close 0)) (openat (1 ∷ 2 ∷ 3 ∷ []) 0 0)) ≡ ok 4
unfolding fs_call sys_open sys_close alloc_inode first_free get_inode file_close
close_stdin_test = refl

start-IsTidy : IsTidy files start.inodes
unfolding fits
start-IsTidy zero = refl
start-IsTidy (suc zero) = refl
start-IsTidy (suc (suc zero)) = refl
start-IsTidy (suc (suc (suc zero))) = refl
start-IsTidy (suc (suc (suc (suc i)))) = refl

open_failed_read_example :
    (r : Reply files) × (fs_call files start (openat (1 ∷ []) 0 0) ≡ ok r)
    × (r.0 ≡ (if is_not_exist not_exist then errno_ret enoent else error_ret (some not_exist)))
    × (fs_call files r.2 (read 4 1) ≡ panic)
unfolding alloc_inode first_free
open_failed_read_example =
    open_failed_read files start (1 ∷ []) 0 0 1 not_exist start.world start-IsTidy refl refl

abbrev released : List (Inode files)
released = set start.inodes 1 (release files (entry files start.inodes 1))

fs_call_keeps_example :
    IsTidy files released × (entry files released 2 ≡ entry files start.inodes 2)
unfolding fs_call sys_close get_inode file_close
fs_call_keeps_example =
    fs_call_keeps files start 2 start-IsTidy refl (close 1)
      (errno_ret einval, nothing, record { inodes = released; world = start.world }) (λ e. cc e)
      refl

-- ===== src/Isyscall.antt =====
-- kernel/isyscall/syscall.go: the errors of a system call and the values that it returns for them,
-- and the table of handlers.
use eggos.Base.{
  ℕ, ◌-◌, ◌%◌, Bool, true, false, Option, none, some, ltb, ◌==◌, if◌then◌else◌, Result, ok, panic,
}
use eggos.Base.Words.{word}

-- A Go error, as far as the system calls tell errors apart: a syscall.Errno, the file system's
-- "does not exist", io.EOF, and all others.
pub data Error : Type 0 where
  errno : ℕ → Error
  not_exist eof other : Error

abbrev pub enoent : ℕ
enoent = 2

abbrev pub ebadf : ℕ
ebadf = 9

abbrev pub eagain : ℕ
eagain = 11

abbrev pub einval : ℕ
einval = 22

abbrev pub erofs : ℕ
erofs = 30

abbrev pub epipe : ℕ
epipe = 32

abbrev pub econnrefused : ℕ
econnrefused = 111

abbrev pub einprogress : ℕ
einprogress = 115

-- Errno
abbrev pub errno_ret : ℕ → ℕ
errno_ret code = (word - code) % word

abbrev code_of : Error → ℕ
code_of (errno code) = errno_ret code
code_of _ = word - 1

-- Error
abbrev pub error_ret : Option Error → ℕ
error_ret none = 0
error_ret (some e) = code_of e

-- os.IsNotExist of the Go library
abbrev pub is_not_exist : Error → Bool
is_not_exist not_exist = true
is_not_exist (errno code) = code == enoent
is_not_exist _ = false

-- A Go result with an error.
pub data Attempt (A : Type 0) : Type 0 where
  done : A → Attempt A
  failed : Error → Attempt A

abbrev pub max_handlers : ℕ
max_handlers = 512

-- GetHandler: nil where nothing is registered.
unfoldable pub get_handler {ℓ} : {H : Type ℓ} → (ℕ → Option H) → ℕ → Result (Option H)
get_handler handlers number = if ltb number max_handlers then ok (handlers number) else panic

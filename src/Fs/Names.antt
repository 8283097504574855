-- ===== src/Fs/Names.antt =====
-- fs/vfs.go: the calls that answer without a file: uname, getrandom and fcntl.
use eggos.Base.{
  ℕ, ◌≡◌, List, [], ◌∷◌, ◌++◌, length, take, drop, arith, length-append, length-take, length-drop,
}

-- Utsname: six arrays of 65 bytes.
pub record Utsname : Type 0 where
  pub sysname : List ℕ
  pub nodename : List ℕ
  pub release : List ℕ
  pub version : List ℕ
  pub machine : List ℕ
  pub domainname : List ℕ

-- Go's copy of a text to the front of an array.
abbrev pub copy_text : List ℕ → List ℕ → List ℕ
copy_text old text = take (length old) text ++ drop (length text) old

-- "x86_32", "icexin.com", "icexin.local", "0" and "eggos"
abbrev machine_text : List ℕ
machine_text = b'x' ∷ b'8' ∷ b'6' ∷ 95 ∷ b'3' ∷ b'2' ∷ []

abbrev icexin : List ℕ
icexin = b'i' ∷ b'c' ∷ b'e' ∷ b'x' ∷ b'i' ∷ b'n' ∷ 46 ∷ []

abbrev domain_text : List ℕ
domain_text = icexin ++ (b'c' ∷ b'o' ∷ b'm' ∷ [])

abbrev node_text : List ℕ
node_text = icexin ++ (b'l' ∷ b'o' ∷ b'c' ∷ b'a' ∷ b'l' ∷ [])

abbrev zero_text : List ℕ
zero_text = b'0' ∷ []

abbrev sysname_text : List ℕ
sysname_text = b'e' ∷ b'g' ∷ b'g' ∷ b'o' ∷ b's' ∷ []

-- sysUname: the structure behind the call, and what it returns.
abbrev pub sys_uname : Utsname → Utsname × ℕ
sys_uname u = (
  record {
    sysname = copy_text u.sysname sysname_text;
    nodename = copy_text u.nodename node_text;
    release = copy_text u.release zero_text;
    version = copy_text u.version zero_text;
    machine = copy_text u.machine machine_text;
    domainname = copy_text u.domainname domain_text;
  },
  0,
)

-- sysRandom, with what rand.Read gives for n bytes; and sysFcntl.
abbrev pub sys_random : (ℕ → List ℕ) → ℕ → List ℕ × ℕ
sys_random random n = (random n, n)

abbrev pub sys_fcntl : ℕ
sys_fcntl = 0

-- A copy keeps the size of the array.
pub length-copy_text : (old text : List ℕ) → length (copy_text old text) ≡ length old
length-copy_text old text = omega (
  arith,
  length-append (take (length old) text) (drop (length text) old),
  length-take (length old) text,
  length-drop (length text) old,
)

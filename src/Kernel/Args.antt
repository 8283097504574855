-- ===== src/Kernel/Args.antt =====
-- kernel/preinit.go: the arguments, environment and auxiliary vector that prepareArgs lays out on
-- the first stack. The bytes that have been written are a list, its length the position in the
-- buffer; a byte that was never written is not read.
pub mod Layout
use eggos.Base.{
  ℕ, zero, suc, ◌+◌, ◌*◌, ◌/◌, ◌%◌, ◌^◌, List, [], ◌∷◌, ◌++◌, length, take, drop, get_or,
}

-- The four bytes of a word, lowest first.
abbrev pub word_bytes : ℕ → List ℕ
word_bytes v = v % 256 ∷ v / 2 ^ 8 % 256 ∷ v / 2 ^ 16 % 256 ∷ v / 2 ^ 24 % 256 ∷ []

-- The buffer at an address, with what has been written to it.
pub record Buf : Type 0 where
  pub at : ℕ
  pub written : List ℕ

-- envput and envdup: the buffer behind, and the address that they return, by its distance from the
-- start of the buffer.
abbrev pub append_bytes : Buf → List ℕ → Buf × ℕ
append_bytes b bytes = (record b { written = b.written ++ bytes }, length b.written)

unfoldable pub envput : Buf → ℕ → Buf × ℕ
envput b v = append_bytes b (word_bytes v)

unfoldable pub envdup : Buf → List ℕ → Buf × ℕ
envdup b s = append_bytes b s

-- A store through a pointer into the buffer.
abbrev pub store_word : Buf → ℕ → ℕ → Buf
store_word b off v = record b {
  written = take off b.written ++ (word_bytes v ++ drop (off + 4) b.written);
}

-- "gobare\x00" and "TERM=xterm\x00"
abbrev pub program_name : List ℕ
program_name = 103 ∷ 111 ∷ 98 ∷ 97 ∷ 114 ∷ 101 ∷ 0 ∷ []

abbrev pub terminal : List ℕ
terminal = 84 ∷ 69 ∷ 82 ∷ 77 ∷ 61 ∷ 120 ∷ 116 ∷ 101 ∷ 114 ∷ 109 ∷ 0 ∷ []

-- The environment's end, and the auxiliary vector: _AT_PAGESZ with the size of a page, and _AT_NULL.
unfoldable pub put_auxv : Buf → Buf
unfolding envput
put_auxv b =
    let b1 = (envput b 0).0 in
    let b2 = (envput b1 6).0 in
    let b3 = (envput b2 4096).0 in let b4 = (envput b3 0).0 in (envput b4 0).0

unfoldable pub prepare_args : ℕ → Buf
unfolding envput envdup put_auxv
prepare_args sp =
    let empty_buf : Buf = record { at = sp; written = [] } in
    let argc = envput empty_buf 1 in
    let argv0 = envput argc.0 0 in
    let end_args = envput argv0.0 0 in
    let env_term = envput end_args.0 0 in
    let auxv = put_auxv env_term.0 in
    let name = envdup auxv program_name in
    let named = store_word name.0 argv0.1 (sp + name.1) in
    let term = envdup named terminal in store_word term.0 env_term.1 (sp + term.1)

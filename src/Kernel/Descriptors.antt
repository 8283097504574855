-- ===== src/Kernel/Descriptors.antt =====
-- kernel/preinit.go, kernel/trap.go and kernel/thread.go: the segment descriptors and the gates that
-- the kernel fills in, and what the processor reads in them. An interrupt gate names its handler,
-- and the vectors are an argument.
pub mod Decode
pub mod Tests
use eggos.Base.{
  ℕ, zero, suc, ◌+◌, ◌-◌, ◌*◌, ◌/◌, ◌%◌, ◌^◌, Bool, true, false, Option, none, some, List, [], ◌∷◌,
  ◌++◌, length, get_or, set, bit_or, leb, ltb, if◌then◌else◌,
}
use eggos.Base.Words.{word}

-- segDesc
pub record SegDesc : Type 0 where
  pub limit_low : ℕ
  pub base_low : ℕ
  pub base_mid : ℕ
  pub attr1 : ℕ
  pub limit_high_attr2 : ℕ
  pub base_high : ℕ

abbrev pub no_seg : SegDesc
no_seg = record {
  limit_low = 0;
  base_low = 0;
  base_mid = 0;
  attr1 = 0;
  limit_high_attr2 = 0;
  base_high = 0;
}

-- 0xc0 and 0x90 are 192 and 144. The low four bits of 192 are 0, so its disjunction with four bits
-- is a sum.
unfoldable pub set_seg_desc : ℕ → ℕ → ℕ → SegDesc
set_seg_desc base limit flag = record {
  limit_low = limit / 2 ^ 12 % 2 ^ 16;
  base_low = base % 2 ^ 16;
  base_mid = base / 2 ^ 16 % 2 ^ 8;
  attr1 = bit_or flag 144 % 2 ^ 8;
  limit_high_attr2 = 192 + limit / 2 ^ 28 % 2 ^ 4;
  base_high = base / 2 ^ 24 % 2 ^ 8;
}

abbrev pub sta_x : ℕ
sta_x = 8

abbrev pub sta_w : ℕ
sta_w = 2

abbrev pub dpl_user : ℕ
dpl_user = 96

-- fillgdt: the gdt. STA_X|STA_R is 10.
unfoldable pub fillgdt : List SegDesc
fillgdt =
    no_seg
    ∷ set_seg_desc 0 (word - 1) 10
    ∷ set_seg_desc 0 (word - 1) sta_w
    ∷ set_seg_desc 0 (word - 1) sta_w
    ∷ set_seg_desc 0 (word - 1) sta_w
    ∷ []

-- gdtptr and idtptr: the limit, which is the size of the table less 1, and the base.
abbrev pub table_limit : {A : Type 0} → ℕ → List A → ℕ
table_limit size table = length table * size - 1

-- settls: an index out of range panics, as `none`. STA_W|DPL_USER is 98.
unfoldable pub settls : List SegDesc → ℕ → ℕ → ℕ → Option (List SegDesc)
settls gdt idx address limit =
    if ltb idx (length gdt) then some (set gdt idx (set_seg_desc address limit 98)) else none

-- The selector that set_gs and set_fs load.
abbrev pub selector : ℕ → ℕ
selector idx = idx * 8 + 3

abbrev pub go_tls_idx : ℕ
go_tls_idx = 3

abbrev pub ktls_idx : ℕ
ktls_idx = 4

abbrev with_selector : ℕ → Option (List SegDesc) → Option (List SegDesc × ℕ)
with_selector idx none = none
with_selector idx (some table) = some (table, selector idx)

-- switchThreadContext: the table, and the selector in GS.
unfoldable pub switch_thread_context : List SegDesc → ℕ → ℕ → Option (List SegDesc × ℕ)
unfolding settls
switch_thread_context gdt base_addr limit =
    with_selector go_tls_idx (settls gdt go_tls_idx base_addr limit)

-- ktls_init: the table, and the selector in FS.
unfoldable pub ktls_init : List SegDesc → ℕ → ℕ → Option (List SegDesc × ℕ)
unfolding settls
ktls_init gdt ktls_at ktls_size =
    with_selector ktls_idx (settls gdt ktls_idx (ktls_at % word) (ktls_size % word))

-- gateDesc
pub record GateDesc : Type 0 where
  pub offset_low : ℕ
  pub code_selector : ℕ
  pub dcount : ℕ
  pub attr : ℕ
  pub offset_high : ℕ

unfoldable pub set_gate_desc : ℕ → ℕ → ℕ → GateDesc
set_gate_desc handler tp pl = record {
  offset_low = handler % word % 2 ^ 16;
  code_selector = 8;
  dcount = 0;
  attr = bit_or tp (pl * 2 ^ 5 % 2 ^ 8);
  offset_high = handler % word / 2 ^ 16 % 2 ^ 16;
}

-- fillidt from index i on; STS_IG32 is 142 and DPL_KERN 0.
unfoldable pub fill_gates : (ℕ → ℕ) → ℕ → ℕ → List GateDesc
fill_gates vectors i zero = []
fill_gates vectors i (suc n) = set_gate_desc (vectors i) 142 0 ∷ fill_gates vectors (suc i) n

unfoldable pub fillidt : (ℕ → ℕ) → List GateDesc
fillidt vectors = fill_gates vectors 0 256

-- ===== src/Kernel/Descriptors/Decode.antt =====
-- What the processor reads in a descriptor is what the kernel put into it.
use eggos.Base.{
  ℕ, zero, suc, ◌+◌, ◌-◌, ◌*◌, ◌/◌, ◌%◌, ◌^◌, ◌<◌, ◌≤◌, ◌≡◌, ◌≢◌, refl, sym, ap, ◌∙◌, true, false,
  Option, none, some, List, length, get_or, set, leb, ltb, if◌then◌else◌, arith, Bool-cases, inl,
  inr, ◌==◌, subst, ltb→lt, get_or-set_self, get_or-set_ne,
}
use eggos.Base.Words.{word}
use eggos.Kernel.Descriptors.{
  SegDesc, no_seg, set_seg_desc, fillgdt, settls, selector, go_tls_idx, switch_thread_context,
  GateDesc, set_gate_desc, fill_gates, fillidt,
}

-- The base of a segment, and the last offset in it, which is counted in pages.
abbrev pub base_of : SegDesc → ℕ
base_of s = s.base_low + s.base_mid * 2 ^ 16 + s.base_high * 2 ^ 24

abbrev pub limit_of : SegDesc → ℕ
limit_of s = (s.limit_low + s.limit_high_attr2 % 2 ^ 4 * 2 ^ 16) * 2 ^ 12 + 4095

-- The linear address of an offset; one behind the limit faults.
unfoldable pub linear : SegDesc → ℕ → Option ℕ
linear s off = if leb off (limit_of s) then some ((base_of s + off) % word) else none

-- The segment that a selector means.
abbrev pub segment : List SegDesc → ℕ → SegDesc
segment gdt sel = get_or gdt (sel / 8) no_seg

-- The handler that a gate leads to.
abbrev pub handler_of : GateDesc → ℕ
handler_of g = g.offset_low + g.offset_high * 2 ^ 16

abbrev pub no_gate : GateDesc
no_gate = record { offset_low = 0; code_selector = 0; dcount = 0; attr = 0; offset_high = 0 }

-- A base and a limit below 2 ^ 32 are read back from the descriptor that setSegDesc makes of them:
-- the base as it was, and the limit rounded up to the last byte of its page.
pub set_seg_desc-decode :
    (base limit flag : ℕ)
    → base < word
    → limit < word
    → (base_of (set_seg_desc base limit flag) ≡ base)
      × (limit_of (set_seg_desc base limit flag) ≡ limit / 2 ^ 12 * 2 ^ 12 + 4095)
unfolding set_seg_desc
set_seg_desc-decode base limit flag hb hl = (omega (arith, hb), omega (arith, hl))

linear-set_seg_desc :
    (base limit flag off : ℕ)
    → base < word
    → limit < word
    → off ≤ limit
    → linear (set_seg_desc base limit flag) off ≡ some ((base + off) % word)
unfolding linear
linear-set_seg_desc base limit flag off hb hl ho =
    let at = set_seg_desc-decode base limit flag hb hl in
    let base_eq = at.0 in let limit_eq = at.1 in ground (arith, base_eq, limit_eq, ho)

flat : (off flag : ℕ) → off < word → linear (set_seg_desc 0 (word - 1) flag) off ≡ some off
flat off flag w =
    linear-set_seg_desc 0 (word - 1) flag off (omega arith) (omega arith) (omega (arith, w))
    ∙ ap some (omega (arith, w))

-- The segments 1 to 4 of the gdt that fillgdt makes are flat: every offset of 32 bits is its own
-- linear address.
pub linear-fillgdt :
    (idx off : ℕ)
    → 1 ≤ idx
    → idx ≤ 4
    → off < word
    → linear (get_or fillgdt idx no_seg) off ≡ some off
unfolding fillgdt
linear-fillgdt zero off h k w = absurd (omega (arith, h))
linear-fillgdt (suc zero) off h k w = flat off 10 w
linear-fillgdt (suc (suc zero)) off h k w = flat off 2 w
linear-fillgdt (suc (suc (suc zero))) off h k w = flat off 2 w
linear-fillgdt (suc (suc (suc (suc zero)))) off h k w = flat off 2 w
linear-fillgdt (suc (suc (suc (suc (suc idx))))) off h k w = absurd (omega (arith, k))

-- The result of a switch: GS means a segment with the offset at that distance from the base, and
-- segment idx is as before unless it is the one of the thread; or the gdt has no segment 3.
pub HasTls : List SegDesc → ℕ → ℕ → ℕ → ℕ → Option (List SegDesc × ℕ) → Type 0
HasTls gdt base limit off idx none = length gdt ≤ go_tls_idx
HasTls gdt base limit off idx (some (table, gs)) =
    (linear (segment table gs) off ≡ some ((base + off) % word))
    × (get_or table idx no_seg
        ≡ (if idx == go_tls_idx then set_seg_desc base limit 98 else get_or gdt idx no_seg))

switch-outside :
    (gdt : List SegDesc) (base limit : ℕ)
    → ltb go_tls_idx (length gdt) ≡ false
    → switch_thread_context gdt base limit ≡ none
unfolding switch_thread_context settls
switch-outside gdt base limit h = rw h refl

switch-inside :
    (gdt : List SegDesc) (base limit : ℕ)
    → ltb go_tls_idx (length gdt) ≡ true
    → switch_thread_context gdt base limit
      ≡ some (set gdt go_tls_idx (set_seg_desc base limit 98), selector go_tls_idx)
unfolding switch_thread_context settls
switch-inside gdt base limit h = rw h refl

get-set_tls :
    (gdt : List SegDesc) (s : SegDesc) (idx : ℕ)
    → go_tls_idx < length gdt
    → get_or (set gdt go_tls_idx s) idx no_seg
      ≡ (if idx == go_tls_idx then s else get_or gdt idx no_seg)
get-set_tls gdt s idx h = elim (Bool-cases (idx == go_tls_idx)) [
  | inl same ↦
      let e : idx ≡ go_tls_idx = ground (arith, same) in
      rw (same, e) (get_or-set_self gdt go_tls_idx s no_seg h)
  | inr other ↦
      let ne : go_tls_idx ≢ idx = ground (arith, other) in
      rw other (get_or-set_ne gdt go_tls_idx idx s no_seg ne)
]

-- When the gdt has a fourth segment, switchThreadContext makes GS a segment in which each offset up
-- to the thread's limit is at that distance from the thread's base, and changes no other segment;
-- with a smaller gdt it panics.
pub linear-switch_thread_context :
    (gdt : List SegDesc) (base limit off idx : ℕ)
    → base < word
    → limit < word
    → off ≤ limit
    → HasTls gdt base limit off idx (switch_thread_context gdt base limit)
unfolding HasTls
linear-switch_thread_context gdt base limit off idx hb hl ho =
    elim (Bool-cases (ltb go_tls_idx (length gdt))) [
      | inl inside ↦
          let s = set_seg_desc base limit 98 in
          let room = ltb→lt go_tls_idx (length gdt) inside in
          let there = get_or-set_self gdt go_tls_idx s no_seg room in
          let at = ap (λ x. linear x off) there ∙ linear-set_seg_desc base limit 98 off hb hl ho in
          subst (HasTls gdt base limit off idx) (sym (switch-inside gdt base limit inside))
            (at, get-set_tls gdt s idx room)
      | inr outside ↦
          let small : length gdt ≤ go_tls_idx = ground (arith, outside) in
          subst (HasTls gdt base limit off idx) (sym (switch-outside gdt base limit outside)) small
    ]

get-fill_gates :
    (vectors : ℕ → ℕ) (i n j : ℕ)
    → j < n
    → get_or (fill_gates vectors i n) j no_gate ≡ set_gate_desc (vectors (j + i)) 142 0
unfolding fill_gates
get-fill_gates vectors i zero j h = absurd (omega (arith, h))
get-fill_gates vectors i (suc n) zero h = ap (λ k. set_gate_desc (vectors k) 142 0) (omega arith)
get-fill_gates vectors i (suc n) (suc j) h =
    get-fill_gates vectors (suc i) n j (omega (arith, h))
    ∙ ap (λ k. set_gate_desc (vectors k) 142 0) (omega arith)

decoded_gate :
    (handler : ℕ)
    → handler < word
    → (handler_of (set_gate_desc handler 142 0) ≡ handler)
      × ((set_gate_desc handler 142 0).attr ≡ 142)
unfolding set_gate_desc
decoded_gate handler h = (omega (arith, h), refl)

-- Entry i of the idt that fillidt makes leads to vector i through an interrupt gate, when the vector
-- is an address of 32 bits.
pub handler_of-fillidt :
    (vectors : ℕ → ℕ) (i : ℕ)
    → i < 256
    → vectors i < word
    → (handler_of (get_or (fillidt vectors) i no_gate) ≡ vectors i)
      × ((get_or (fillidt vectors) i no_gate).attr ≡ 142)
unfolding fillidt
handler_of-fillidt vectors i h w =
    let here : get_or (fillidt vectors) i no_gate ≡ set_gate_desc (vectors i) 142 0 =
      get-fill_gates vectors 0 256 i h ∙ ap (λ k. set_gate_desc (vectors k) 142 0) (omega arith) in
    let decoded = decoded_gate (vectors i) w in
    (ap handler_of here ∙ decoded.0, ap (λ g. g.attr) here ∙ decoded.1)

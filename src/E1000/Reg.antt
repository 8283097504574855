-- ===== src/E1000/Reg.antt =====
-- e1000/defs.go: the registers that Init writes, by their numbers.
use eggos.Base.{ℕ}

abbrev pub ctrl : ℕ
ctrl = 0x0000

abbrev pub icr : ℕ
icr = 0x00c0

abbrev pub ims : ℕ
ims = 0x00d0

abbrev pub imc : ℕ
imc = 0x00d8

abbrev pub rctl : ℕ
rctl = 0x0100

abbrev pub tctl : ℕ
tctl = 0x0400

abbrev pub rdbal : ℕ
rdbal = 0x2800

abbrev pub tdbal : ℕ
tdbal = 0x3800

abbrev pub mta_base : ℕ
mta_base = 0x5200

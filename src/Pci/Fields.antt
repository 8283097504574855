-- ===== src/Pci/Fields.antt =====
-- pci/addr.go: the address of a register holds its parts in fields of their own.
use eggos.Base.{ℕ, ◌+◌, ◌*◌, ◌^◌, ◌<◌, ◌≡◌, sym, ap, ◌∙◌, bit_or, arith}
use eggos.Base.Bits.{bit_or-add}
use eggos.Pci.{Address, config_addr}

-- A bus, a device and a function in their ranges.
pub record IsAddress (a : Address) : Type 0 where
  pub bus : a.bus < 256
  pub device : a.device < 32
  pub function : a.function < 8

join : (k q x r y : ℕ) → x ≡ q * 2 ^ k → r < 2 ^ k → y ≡ q * 2 ^ k + r → bit_or x r ≡ y
join k q x r y e h s = ap (λ t. bit_or t r) e ∙ bit_or-add k q r h ∙ sym s

config_addr-sum :
    (a : Address) (reg : ℕ)
    → IsAddress a
    → reg < 256
    → config_addr a reg ≡ 2 ^ 31 + a.bus * 65536 + a.device * 2048 + a.function * 256 + reg
unfolding config_addr
config_addr-sum a reg v h =
    ap (λ t. bit_or (bit_or (bit_or t (a.device * 2 ^ 11)) (a.function * 2 ^ 8)) reg)
      (join 31 1 (2 ^ 31) (a.bus * 2 ^ 16) (2 ^ 31 + a.bus * 65536) (omega arith)
        (omega (arith, v.bus)) (omega arith))
    ∙ ap (λ t. bit_or (bit_or t (a.function * 2 ^ 8)) reg)
        (join 16 (2 ^ 15 + a.bus) (2 ^ 31 + a.bus * 65536) (a.device * 2 ^ 11)
          (2 ^ 31 + a.bus * 65536 + a.device * 2048) (omega arith) (omega (arith, v.device))
          (omega arith))
    ∙ ap (λ t. bit_or t reg)
        (join 11 (2 ^ 20 + a.bus * 32 + a.device) (2 ^ 31 + a.bus * 65536 + a.device * 2048)
          (a.function * 2 ^ 8) (2 ^ 31 + a.bus * 65536 + a.device * 2048 + a.function * 256)
          (omega arith) (omega (arith, v.function)) (omega arith))
    ∙ join 8 (2 ^ 23 + a.bus * 256 + a.device * 8 + a.function)
        (2 ^ 31 + a.bus * 65536 + a.device * 2048 + a.function * 256) reg
        (2 ^ 31 + a.bus * 65536 + a.device * 2048 + a.function * 256 + reg) (omega arith)
        (omega arith) (omega arith)

-- Two registers of two functions have the same address only if they are the same register of the
-- same function.
pub config_addr_injective :
    (a b : Address) (reg reg' : ℕ)
    → IsAddress a
    → IsAddress b
    → reg < 256
    → reg' < 256
    → config_addr a reg ≡ config_addr b reg'
    → (a ≡ b) × (reg ≡ reg')
config_addr_injective a b reg reg' v w h h' e = (
  ap (λ x. record { bus = x; device = a.device; function = a.function }) same_bus
      ∙ ap (λ x. record { bus = b.bus; device = x; function = a.function }) same_device
      ∙ ap (λ x. record { bus = b.bus; device = b.device; function = x }) same_function,
  omega (arith, sums, v.bus, v.device, v.function, w.bus, w.device, w.function),
)
  where
    sums :
        2 ^ 31 + a.bus * 65536 + a.device * 2048 + a.function * 256 + reg
        ≡ 2 ^ 31 + b.bus * 65536 + b.device * 2048 + b.function * 256 + reg'
    sums = sym (config_addr-sum a reg v h) ∙ e ∙ config_addr-sum b reg' w h'

    same_bus : a.bus ≡ b.bus
    same_bus = omega (arith, sums, v.bus, v.device, v.function, w.bus, w.device, w.function)

    same_device : a.device ≡ b.device
    same_device = omega (arith, sums, v.bus, v.device, v.function, w.bus, w.device, w.function)

    same_function : a.function ≡ b.function
    same_function = omega (arith, sums, v.bus, v.device, v.function, w.bus, w.device, w.function)

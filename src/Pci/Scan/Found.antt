-- ===== src/Pci/Scan/Found.antt =====
-- pci/pci.go: the scan finds every function that answers, at its address.
use eggos.Base.{
  ℕ, zero, suc, ◌+◌, ◌≡◌, refl, sym, ap, ◌∙◌, Bool, true, false, List, [], ◌∷◌, ◌++◌, ◌==◌, ◌||◌,
  ◌&&◌, not, leb, ltb, Bool-cases, inl, inr, arith,
}
use eggos.Pci.{Address, Space}
use eggos.Pci.Fields.{IsAddress}
use eggos.Pci.Scan.{Device, vendor_id, scan_functions, scan_devices, scan_buses, scan}

abbrev pub same_address : Address → Address → Bool
same_address a b = a.bus == b.bus && (a.device == b.device && a.function == b.function)

-- Is there a device at address a?
unfoldable pub listed : Address → List Device → Bool
listed a [] = false
listed a (d ∷ ds) = same_address a d.addr || listed a ds

listed-append :
    (a : Address) (ds es : List Device) → listed a (ds ++ es) ≡ (listed a ds || listed a es)
unfolding listed
listed-append a [] es = refl
listed-append a (d ∷ ds) es = ground (arith, listed-append a ds es)

abbrev pub answers : Space → Address → Bool
answers s a = not (vendor_id s a == 0xffff)

eq_of : (a b : ℕ) → (a == b) ≡ true → a ≡ b
eq_of a b h = ground arith

same_address-eq : (a b : Address) → same_address a b ≡ true → a ≡ b
same_address-eq a b h =
    ap (λ x. record { bus = x; device = a.device; function = a.function })
      (eq_of a.bus b.bus (ground arith))
    ∙ ap (λ x. record { bus = b.bus; device = x; function = a.function })
        (eq_of a.device b.device (ground arith))
    ∙ ap (λ x. record { bus = b.bus; device = b.device; function = x })
        (eq_of a.function b.function (ground arith))

abbrev at_function : ℕ → ℕ → ℕ → Address
at_function bus dev f = record { bus = bus; device = dev; function = f }

listed-step :
    (s : Space) (a : Address) (bus dev left f : ℕ)
    → listed a (scan_functions s bus dev (suc left) f) ≡ (
        (answers s (at_function bus dev f) && same_address a (at_function bus dev f))
        || listed a (scan_functions s bus dev left (suc f)))
unfolding listed scan_functions
listed-step s a bus dev left f = elim (Bool-cases (vendor_id s (at_function bus dev f) == 0xffff)) [
  | inl e ↦ rw e refl
  | inr e ↦ rw e refl
]

answers-same :
    (s : Space) (a b : Address)
    → (answers s b && same_address a b) ≡ (answers s a && same_address a b)
answers-same s a b = elim (Bool-cases (same_address a b)) [
  | inl h ↦ ap (λ x. answers s x && same_address a b) (sym (same_address-eq a b h))
  | inr h ↦ ground (arith, h)
]

-- Is x one of the n numbers from i on?
abbrev in_range : ℕ → ℕ → ℕ → Bool
in_range i n x = leb i x && ltb x (i + n)

in_range-nil : (i x : ℕ) → in_range i 0 x ≡ false
in_range-nil i x = ground arith

in_range-step : (i n x : ℕ) → in_range i (suc n) x ≡ (x == i || in_range (suc i) n x)
in_range-step i n x = ground arith

and_false : (a b c : Bool) → (a && (b && (false && c))) ≡ false
and_false a b c = ground arith

and_or :
    (b d x y g : Bool)
    → ((g && (b && (d && x))) || (b && (d && (y && g)))) ≡ (b && (d && ((x || y) && g)))
and_or true true true y true = refl
and_or true true false y true = refl
and_or true true true true false = refl
and_or true true true false false = refl
and_or true true false true false = refl
and_or true true false false false = refl
and_or true false x y true = refl
and_or true false x y false = refl
and_or false d x y true = refl
and_or false d x y false = refl

listed-functions :
    (s : Space) (a : Address) (bus dev left f : ℕ)
    → listed a (scan_functions s bus dev left f)
      ≡ (a.bus == bus && (a.device == dev && (in_range f left a.function && answers s a)))
unfolding listed scan_functions
listed-functions s a bus dev zero f = sym (
    ap (λ x. a.bus == bus && (a.device == dev && (x && answers s a))) (in_range-nil f a.function)
    ∙ and_false (a.bus == bus) (a.device == dev) (answers s a))
listed-functions s a bus dev (suc left) f =
    listed-step s a bus dev left f
    ∙ ap (λ b. b || listed a (scan_functions s bus dev left (suc f)))
        (answers-same s a (at_function bus dev f))
    ∙ ap (λ b. (answers s a && same_address a (at_function bus dev f)) || b)
        (listed-functions s a bus dev left (suc f))
    ∙ and_or (a.bus == bus) (a.device == dev) (a.function == f) (in_range (suc f) left a.function)
        (answers s a)
    ∙ ap (λ x. a.bus == bus && (a.device == dev && (x && answers s a)))
        (sym (in_range-step f left a.function))

and_or_rest : (b x y g : Bool) → ((b && (x && g)) || (b && (y && g))) ≡ (b && ((x || y) && g))
and_or_rest true true true true = refl
and_or_rest true true true false = refl
and_or_rest true true false true = refl
and_or_rest true true false false = refl
and_or_rest true false y g = refl
and_or_rest false x y g = refl

-- The functions of a device that answer.
abbrev on_device : Space → Address → Bool
on_device s a = in_range 0 8 a.function && answers s a

listed-devices :
    (s : Space) (a : Address) (bus left dev : ℕ)
    → listed a (scan_devices s bus left dev)
      ≡ (a.bus == bus && (in_range dev left a.device && on_device s a))
unfolding listed scan_devices
listed-devices s a bus zero dev = sym (
    ap (λ x. a.bus == bus && (x && on_device s a)) (in_range-nil dev a.device)
    ∙ and_false (a.bus == bus) true (on_device s a))
listed-devices s a bus (suc left) dev =
    listed-append a (scan_functions s bus dev 8 0) (scan_devices s bus left (suc dev))
    ∙ ap (λ b. b || listed a (scan_devices s bus left (suc dev))) (listed-functions s a bus dev 8 0)
    ∙ ap (λ b. (a.bus == bus && (a.device == dev && on_device s a)) || b)
        (listed-devices s a bus left (suc dev))
    ∙ and_or_rest (a.bus == bus) (a.device == dev) (in_range (suc dev) left a.device)
        (on_device s a)
    ∙ ap (λ x. a.bus == bus && (x && on_device s a)) (sym (in_range-step dev left a.device))

-- The functions of a bus that answer.
abbrev on_bus : Space → Address → Bool
on_bus s a = in_range 0 32 a.device && on_device s a

listed-buses :
    (s : Space) (a : Address) (left bus : ℕ)
    → listed a (scan_buses s left bus) ≡ (in_range bus left a.bus && on_bus s a)
unfolding listed scan_buses
listed-buses s a zero bus = sym (ap (λ x. x && on_bus s a) (in_range-nil bus a.bus))
listed-buses s a (suc left) bus =
    listed-append a (scan_devices s bus 32 0) (scan_buses s left (suc bus))
    ∙ ap (λ b. b || listed a (scan_buses s left (suc bus))) (listed-devices s a bus 32 0)
    ∙ ap (λ b. (a.bus == bus && on_bus s a) || b) (listed-buses s a left (suc bus))
    ∙ and_or_rest true (a.bus == bus) (in_range (suc bus) left a.bus) (on_bus s a)
    ∙ ap (λ x. x && on_bus s a) (sym (in_range-step bus left a.bus))

-- The scan lists a device at an address in range if and only if its vendor register does not read
-- as all ones, whatever the configuration space holds.
pub listed-scan :
    (s : Space) (a : Address) → IsAddress a → listed a (scan s) ≡ not (vendor_id s a == 0xffff)
unfolding scan
listed-scan s a v = listed-buses s a 256 0 ∙ ground (arith, v.bus, v.device, v.function)

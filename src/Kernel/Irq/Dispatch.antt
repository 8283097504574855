-- ===== src/Kernel/Irq/Dispatch.antt =====
-- kernel/trap.go: every device interrupt that is noted is served once by the next round of the trap
-- task.
use eggos.Base.{
  ℕ, zero, suc, ◌+◌, ◌-◌, ◌^◌, ◌≤◌, ◌<◌, ◌≡◌, refl, sym, ap, ◌∙◌, Bool, true, false, List, [], ◌∷◌,
  ◌||◌, ◌&&◌, bit_or, ltb, ◌==◌, if◌then◌else◌, Bool-cases, inl, inr, arith, ℕ_discrete,
}
use eggos.Base.BitSets.{has_bit, has_bit-or, has_bit-zero, has_bit-pow, bit_and-pow}
use eggos.Kernel.Irq.{
  irq_base, setsize, shift_one, note_irq, Served, handled, missing, serve, dispatch_from, dispatch,
}

-- The interrupts noted one after the other, in a set that was empty.
unfoldable pub noted_set : List ℕ → ℕ
noted_set [] = 0
noted_set (number ∷ numbers) = note_irq (noted_set numbers) number

unfoldable pub raised : ℕ → List ℕ → Bool
raised number [] = false
raised number (other ∷ numbers) = number == other || raised number numbers

-- How often an interrupt is served.
abbrev is_for : ℕ → Served → Bool
is_for number (handled other) = number == other
is_for number (missing other) = number == other

unfoldable pub times_served : ℕ → List Served → ℕ
times_served number [] = 0
times_served number (s ∷ ss) =
    let rest = times_served number ss in if is_for number s then suc rest else rest

-- All of them are device interrupts that fit into the set.
unfoldable pub all_devices : List ℕ → Bool
all_devices [] = true
all_devices (number ∷ numbers) = ltb 32 number && (ltb number 64 && all_devices numbers)

or_comm : (a b : Bool) → (a || b) ≡ (b || a)
or_comm a b = ground arith

has_bit-noted_set :
    (i : ℕ) (numbers : List ℕ)
    → i < setsize
    → all_devices numbers ≡ true
    → has_bit i (noted_set numbers) ≡ raised (irq_base + i) numbers
unfolding noted_set raised all_devices
has_bit-noted_set i [] h d = has_bit-zero i
has_bit-noted_set i (number ∷ numbers) h d =
    ap (λ b. has_bit i (bit_or (noted_set numbers) b)) small
    ∙ has_bit-or i (noted_set numbers) (2 ^ (number - irq_base))
    ∙ ap (λ b. b || has_bit i (2 ^ (number - irq_base)))
        (has_bit-noted_set i numbers h (ground arith))
    ∙ ap (λ b. raised (irq_base + i) numbers || b) (has_bit-pow i (number - irq_base) ∙ same)
    ∙ or_comm (raised (irq_base + i) numbers) (irq_base + i == number)
  where
    small : shift_one (number - irq_base) ≡ 2 ^ (number - irq_base)
    small = ground arith

    same : (i == number - irq_base) ≡ (irq_base + i == number)
    same = ground arith

times_served-past :
    (registered : ℕ → Bool) (trapset left i number : ℕ)
    → number < irq_base + i
    → times_served number (dispatch_from registered trapset left i) ≡ 0
unfolding times_served dispatch_from
times_served-past registered trapset zero i number h = refl
times_served-past registered trapset (suc left) i number h =
    ground (arith, times_served-past registered trapset left (suc i) number)

dispatch_from-set :
    (registered : ℕ → Bool) (trapset left i : ℕ)
    → has_bit i trapset ≡ true
    → dispatch_from registered trapset (suc left) i
      ≡ serve registered (irq_base + i) ∷ dispatch_from registered trapset left (suc i)
unfolding dispatch_from
dispatch_from-set registered trapset left i h =
    rw (bit_and-pow i trapset ∙ ap (λ b. if b then false else true) h) refl

dispatch_from-clear :
    (registered : ℕ → Bool) (trapset left i : ℕ)
    → has_bit i trapset ≡ false
    → dispatch_from registered trapset (suc left) i ≡ dispatch_from registered trapset left (suc i)
unfolding dispatch_from
dispatch_from-clear registered trapset left i h =
    rw (bit_and-pow i trapset ∙ ap (λ b. if b then false else true) h) refl

is_for-serve :
    (registered : ℕ → Bool) (number other : ℕ)
    → is_for number (serve registered other) ≡ (number == other)
is_for-serve registered number other = ground arith

times_served-cons :
    (registered : ℕ → Bool) (number other : ℕ) (ss : List Served)
    → times_served number (serve registered other ∷ ss)
      ≡ (if number == other then suc (times_served number ss) else times_served number ss)
unfolding times_served
times_served-cons registered number other ss =
    ap (λ b. if b then suc (times_served number ss) else times_served number ss)
      (is_for-serve registered number other)

times_served-dispatch_from :
    (registered : ℕ → Bool) (trapset left i number : ℕ)
    → irq_base + i ≤ number
    → number < irq_base + i + left
    → times_served number (dispatch_from registered trapset left i)
      ≡ (if has_bit (number - irq_base) trapset then 1 else 0)
times_served-dispatch_from registered trapset zero i number p q = absurd (omega arith)
times_served-dispatch_from registered trapset (suc left) i number p q =
    elim (Bool-cases (has_bit i trapset)) [
      | inl h ↦
          ap (times_served number) (dispatch_from-set registered trapset left i h)
          ∙ times_served-cons registered number (irq_base + i) rest
          ∙ elim (ℕ_discrete number (irq_base + i)) [
            | yes e ↦ ground (arith, past e, same_bit e, h)
            | no ne ↦ ground (
              arith,
              times_served-dispatch_from registered trapset left (suc i) number (omega arith)
                  (omega arith),
            )
          ]
      | inr h ↦
          ap (times_served number) (dispatch_from-clear registered trapset left i h)
          ∙ elim (ℕ_discrete number (irq_base + i)) [
            | yes e ↦ past e ∙ sym (ap (λ b. if b then 1 else 0) (same_bit e ∙ h))
            | no ne ↦
                times_served-dispatch_from registered trapset left (suc i) number (omega arith)
                  (omega arith)
          ]
    ]
  where
    rest : List Served
    rest = dispatch_from registered trapset left (suc i)

    past : number ≡ irq_base + i → times_served number rest ≡ 0
    past e = times_served-past registered trapset left (suc i) number (omega arith)

    same_bit : number ≡ irq_base + i → has_bit (number - irq_base) trapset ≡ has_bit i trapset
    same_bit e = ap (λ n. has_bit n trapset) (omega arith)

-- Device interrupts that are noted between two waits of the trap task, in any order and any number
-- of them, are each served exactly once by its next round, whether or not a handler is
-- registered, and no other interrupt is served.
pub noted-dispatch :
    (registered : ℕ → Bool) (numbers : List ℕ) (number : ℕ)
    → all_devices numbers ≡ true
    → irq_base ≤ number
    → number < irq_base + setsize
    → times_served number (dispatch registered (noted_set numbers))
      ≡ (if raised number numbers then 1 else 0)
unfolding dispatch
noted-dispatch registered numbers number d p q =
    times_served-dispatch_from registered (noted_set numbers) setsize 0 number (omega arith)
      (omega arith)
    ∙ ap (λ b. if b then 1 else 0)
        (has_bit-noted_set (number - irq_base) numbers (omega arith) d
          ∙ ap (λ n. raised n numbers) (omega arith))

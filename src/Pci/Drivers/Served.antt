-- ===== src/Pci/Drivers/Served.antt =====
-- The devices that have a driver are served behind Init.
pub mod Tests
use eggos.Base.{
  ℕ, zero, Result, ok, panic, ◌>>=◌, ◌≡◌, refl, sym, ap, ◌∙◌, subst, Bool, true, false, Option,
  none, some, List, [], ◌∷◌, ◌&&◌, if◌then◌else◌,
}
use eggos.Pic.{Pic, enable_irq}
use eggos.Pic.Masks.{is_open}
use eggos.Pci.Scan.{Device}
use eggos.Pci.Drivers.{Driver, Drivers, register, started, start_with}

abbrev pub has_handler : Option ℕ → Bool
has_handler none = false
has_handler (some n) = true

-- The device's line is open, and its interrupt has a handler.
abbrev pub IsServed : {World : Type 0} → Drivers World → Device → Type 0
IsServed s d = (is_open s.pic d.irq_line ≡ true) × (has_handler (s.handlers d.irqno) ≡ true)

-- What the result is behind a run that returns.
abbrev pub Ends : {A : Type 0} → (A → Type 0) → Result A → Type 0
Ends P panic = ⊥
Ends P (ok a) = P a

pub Ends-bind :
    {A B : Type 0} (P : A → Type 0) (Q : B → Type 0) (r : Result A) (next : A → Result B)
    → Ends P r
    → ((a : A) → P a → Ends Q (next a))
    → Ends Q (r >>= next)
Ends-bind P Q (ok a) next h k = k a h
Ends-bind P Q panic next h k = h

pub Ends-ok : {A : Type 0} (P : A → Type 0) (r : Result A) → Ends P r → (a : A) × (r ≡ ok a) × P a
Ends-ok P (ok a) h = (a, refl, h)
Ends-ok P panic h = absurd h

-- Init of each driver returns, for every device.
abbrev pub AllStart : {World : Type 0} → List (Driver World) → Type 0
AllStart [] = Unit
AllStart {World} (driver ∷ drivers) =
    ((w : World) (d : Device) → Ends (λ v. Unit) (driver.start w d)) × AllStart drivers

module _ {World : Type 0} where
  -- A property that started keeps or gives, behind a driver whose Init returns.
  pub start_with-Ends :
      (P : Drivers World → Type 0) (s : Drivers World) (number : ℕ) (driver : Driver World)
      (found : Option Device)
      → ((w : World) (d : Device) → Ends (λ v. Unit) (driver.start w d))
      → (found ≡ none → P s)
      → ((d : Device) (w : World) → found ≡ some d → P (started s number d w))
      → Ends P (start_with s number driver found)
  start_with-Ends P s number driver none starts same new = same refl
  start_with-Ends P s number driver (some d) starts same new =
      Ends-bind (λ v. Unit) P (driver.start s.world d) (λ w. ok (started s number d w))
        (starts s.world d) (λ w u. new d w refl)

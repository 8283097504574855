-- ===== src/Pci/Drivers.antt =====
-- Init of pci/pci.go over drivers that are a parameter, and Register of kernel/trap/registry.go: each
-- driver is told of its device, and its line is opened. A handler is known by the number of its
-- driver in the list. The source keeps the drivers in a map, whose order is any.
pub mod Served
use eggos.Base.{
  ℕ, zero, suc, Result, ok, ◌>>=◌, Bool, true, false, Option, none, some, List, [], ◌∷◌, ◌==◌,
  if◌then◌else◌,
}
use eggos.Paths.{same_path}
use eggos.Pic.{Pic, enable_irq}
use eggos.Pci.{Space}
use eggos.Pci.Scan.{Identity, Device, scan, find_dev}

-- Driver: its identities, and Init on the state of the rest of the kernel, which may panic, and
-- whose error is dropped.
pub record Driver (World : Type 0) : Type 0 where
  pub idents : List Identity
  pub start : World → Device → Result World

-- The rest of the kernel, the interrupt controllers, and trapHandlers.
pub record Drivers (World : Type 0) : Type 0 where
  pub world : World
  pub pic : Pic
  pub handlers : ℕ → Option ℕ

-- Register of pci/driver.go: the driver of a name, which it takes over from another of that name.
unfoldable pub register_driver :
    {World : Type 0}
    → List ℕ
    → Driver World
    → List (List ℕ × Driver World)
    → List (List ℕ × Driver World)
register_driver name driver [] = (name, driver) ∷ []
register_driver name driver ((n, d) ∷ table) =
    let rest = register_driver name driver table in
    if same_path n name then (n, driver) ∷ table else (n, d) ∷ rest

module _ {World : Type 0} where
  -- trap.Register
  abbrev pub register : Drivers World → ℕ → ℕ → Drivers World
  register s irqno driver = record s {
    handlers = λ n. if n == irqno then some driver else s.handlers n;
  }

  -- A round of the loop of Init, behind that of the driver: the line is opened before the handler is
  -- registered.
  abbrev pub started : Drivers World → ℕ → Device → World → Drivers World
  started s number d w =
      register (record s { world = w; pic = enable_irq s.pic d.irq_line }) d.irqno number

  abbrev pub start_with : Drivers World → ℕ → Driver World → Option Device → Result (Drivers World)
  start_with s number driver none = ok s
  start_with s number driver (some d) = driver.start s.world d >>= λ w. ok (started s number d w)

  -- The loop of Init, with the number of the next driver.
  unfoldable pub start_all :
      List Device → List (Driver World) → ℕ → Drivers World → Result (Drivers World)
  start_all ds [] number s = ok s
  start_all ds (driver ∷ drivers) number s =
      start_with s number driver (find_dev driver.idents ds) >>= λ t.
      start_all ds drivers (suc number) t

  unfoldable pub init : Space → List (Driver World) → Drivers World → Result (Drivers World)
  unfolding start_all
  init space drivers s = start_all (scan space) drivers 0 s

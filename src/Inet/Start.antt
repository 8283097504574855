-- ===== src/Inet/Start.antt =====
-- inet/stack.go: the start of the network. The stack (netstack) and the DHCP client are parameters:
-- what each of their calls answers, over a state of their own.
pub mod Routes
pub mod Tests
use eggos.Base.{ℕ, Bool, true, false, Option, none, some, List, [], ◌∷◌}
use eggos.Isyscall.{Error, other}

-- tcpip.Route; an empty destination is the default route.
pub record NetRoute : Type 0 where
  pub destination : List ℕ
  pub gateway : List ℕ
  pub nic : ℕ

abbrev pub default_nic : ℕ
default_nic = 1

-- The calls that Init makes. An error of the stack is told apart from one of the DHCP client, which
-- is passed on as it is.
pub record Services : Type 1 where
  pub World : Type 0
  pub new_stack : World → World
  pub create_nic : World → ℕ → Bool × World
  pub add_arp_address : World → ℕ → Bool × World
  pub dhcp_request : World → ℕ → List ℕ → Option Error × World
  pub dhcp_gateway : World → List ℕ
  pub set_route_table : World → List NetRoute → World

module _ (S : Services) where
  -- setroute
  abbrev pub setroute : S.World → List ℕ → S.World
  setroute w gateway =
      S.set_route_table w (record { destination = []; gateway = gateway; nic = default_nic } ∷ [])

  -- dodhcp, behind the request.
  abbrev pub requested : Option Error × S.World → Option Error × S.World
  requested (some err, w) = (some err, w)
  requested (none, w) = (none, setroute w (S.dhcp_gateway w))

  unfoldable pub dodhcp : S.World → List ℕ → Option Error × S.World
  dodhcp w linkaddr = requested (S.dhcp_request w default_nic linkaddr)

  -- e(err) of a stack call, or the next step.
  abbrev pub or_error : Bool × S.World → (S.World → Option Error × S.World) → Option Error × S.World
  or_error (false, w) next = (some other, w)
  or_error (true, w) next = next w

  -- Init, for the address of the link endpoint. What stands behind its `return nil` is not reached.
  unfoldable pub init : S.World → List ℕ → Option Error × S.World
  unfolding dodhcp
  init w linkaddr =
      or_error (S.create_nic (S.new_stack w) default_nic)
        (λ w1. or_error (S.add_arp_address w1 default_nic) (λ w2. dodhcp w2 linkaddr))

-- ===== src/Inet/Start/Routes.antt =====
-- inet/stack.go: the route table behind Init.
use eggos.Base.{ℕ, ◌≡◌, ◌∙◌, Bool, true, false, Option, none, some, List, [], ◌∷◌}
use eggos.Isyscall.{Error}
use eggos.Inet.Start.{NetRoute, default_nic, Services, requested, dodhcp, or_error, init}

-- The route table as a part of the state, which the other calls leave alone: a new stack has none.
pub record HasRoutes (S : Services) : Type 0 where
  pub routes : S.World → List NetRoute
  pub new_stack_law : (w : S.World) → routes (S.new_stack w) ≡ []
  pub create_nic_law : (w : S.World) (nic : ℕ) → routes (S.create_nic w nic).1 ≡ routes w
  pub add_arp_law : (w : S.World) (nic : ℕ) → routes (S.add_arp_address w nic).1 ≡ routes w
  pub dhcp_law :
      (w : S.World) (nic : ℕ) (addr : List ℕ) → routes (S.dhcp_request w nic addr).1 ≡ routes w
  pub set_law : (w : S.World) (rs : List NetRoute) → routes (S.set_route_table w rs) ≡ rs

module _ (S : Services) (T : HasRoutes S) where
  -- No error and the default route through the gateway that the client has been given, or an error
  -- and no route.
  pub Started : (Option Error × S.World) → Type 0
  Started (none, w) =
      (gateway : List ℕ) × (T.routes w
        ≡ record { destination = []; gateway = gateway; nic = default_nic } ∷ [])
  Started (some err, w) = T.routes w ≡ []

  requested-Started : (r : Option Error × S.World) → T.routes r.1 ≡ [] → Started (requested S r)
  unfolding Started
  requested-Started (some err, w) h = h
  requested-Started (none, w) h = (S.dhcp_gateway w, T.set_law w _)

  or_error-Started :
      (r : Bool × S.World) (next : S.World → Option Error × S.World)
      → T.routes r.1 ≡ []
      → ((w : S.World) → T.routes w ≡ [] → Started (next w))
      → Started (or_error S r next)
  unfolding Started
  or_error-Started (false, w) next h t = h
  or_error-Started (true, w) next h t = t w h

  -- Whatever the stack and the DHCP client answer, when their other calls leave the route table
  -- alone: Init either returns no error and has set a default route as the only one, or returns
  -- an error and has set none.
  pub init-Started : (w : S.World) (linkaddr : List ℕ) → Started (init S w linkaddr)
  unfolding init dodhcp
  init-Started w linkaddr =
      or_error-Started (S.create_nic (S.new_stack w) default_nic) _
        (T.create_nic_law (S.new_stack w) default_nic ∙ T.new_stack_law w)
        (λ w1 h1.
          or_error-Started (S.add_arp_address w1 default_nic) _ (T.add_arp_law w1 default_nic ∙ h1)
            (λ w2 h2.
              requested-Started (S.dhcp_request w2 default_nic linkaddr)
                (T.dhcp_law w2 default_nic linkaddr ∙ h2)))

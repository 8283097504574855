-- ===== src/Inet/Start/Tests.antt =====
-- A stack that is its route table, and a client that is given a gateway.
use eggos.Base.{refl, true, none, List, [], ◌∷◌}
use eggos.Inet.Start.{NetRoute, Services, init}
use eggos.Inet.Start.Routes.{HasRoutes, Started, init-Started}

abbrev table : Services
table = record {
  World = List NetRoute;
  new_stack = λ w. [];
  create_nic = λ w nic. (true, w);
  add_arp_address = λ w nic. (true, w);
  dhcp_request = λ w nic addr. (none, w);
  dhcp_gateway = λ w. 10 ∷ 0 ∷ 2 ∷ 2 ∷ [];
  set_route_table = λ w rs. rs;
}

abbrev table-HasRoutes : HasRoutes table
table-HasRoutes = record {
  routes = λ w. w;
  new_stack_law = λ w. refl;
  create_nic_law = λ w nic. refl;
  add_arp_law = λ w nic. refl;
  dhcp_law = λ w nic addr. refl;
  set_law = λ w rs. refl;
}

init-Started_example :
    Started table table-HasRoutes (init table [] (82 ∷ 84 ∷ 0 ∷ 18 ∷ 52 ∷ 86 ∷ []))
init-Started_example = init-Started table table-HasRoutes [] (82 ∷ 84 ∷ 0 ∷ 18 ∷ 52 ∷ 86 ∷ [])

-- ===== src/Tests/RouteTests.antt =====
-- Runs of the lookup of a route, and its theorem applied at a concrete table.
use sdnagent.Base.{true, none, some, List, [], ◌∷◌, codes, ◌≡◌, refl, ◌⊎◌}
use sdnagent.Routes.Table.{
  Route, contains_bytes, contains_ip, leading_ones, all_zero, mask_length, mask_size, lookup_step,
  lookup_loop, lookup_route,
}
use sdnagent.Routes.Best.{In, none_contains, beats_all, lookup_route-Best}

abbrev default_route : Route
default_route = record {
  net_ip = 0 ∷ 0 ∷ 0 ∷ 0 ∷ [];
  net_mask = 0 ∷ 0 ∷ 0 ∷ 0 ∷ [];
  gateway = 10 ∷ 168 ∷ 222 ∷ 1 ∷ [];
  dev = codes "br0";
  metric = 0;
}

abbrev local_route : Route
local_route = record {
  net_ip = 10 ∷ 168 ∷ 222 ∷ 0 ∷ [];
  net_mask = 255 ∷ 255 ∷ 254 ∷ 0 ∷ [];
  gateway = 0 ∷ 0 ∷ 0 ∷ 0 ∷ [];
  dev = codes "br0";
  metric = 100;
}

abbrev table : List Route
table = default_route ∷ local_route ∷ record local_route { metric = 50 } ∷ []

size_run : mask_size local_route ≡ 23
unfolding mask_size mask_length leading_ones all_zero
size_run = refl

lookup_run : lookup_route table (10 ∷ 168 ∷ 223 ∷ 9 ∷ []) ≡ some record local_route { metric = 50 }
unfolding lookup_route lookup_loop lookup_step contains_ip contains_bytes mask_size mask_length
    leading_ones all_zero
lookup_run = refl

lookup_route-Best_example :
    ((lookup_route table (10 ∷ 168 ∷ 223 ∷ 9 ∷ []) ≡ none)
      × (none_contains (10 ∷ 168 ∷ 223 ∷ 9 ∷ []) table ≡ true))
    ⊎ ((b : Route) × (lookup_route table (10 ∷ 168 ∷ 223 ∷ 9 ∷ []) ≡ some b)
        × In b table
        × (contains_ip b (10 ∷ 168 ∷ 223 ∷ 9 ∷ []) ≡ true)
        × (beats_all (10 ∷ 168 ∷ 223 ∷ 9 ∷ []) b table ≡ true))
lookup_route-Best_example = lookup_route-Best table (10 ∷ 168 ∷ 223 ∷ 9 ∷ [])

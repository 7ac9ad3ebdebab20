-- ===== src/Vpn/Examples.antt =====
-- The theorems of the policy at a small one.
use game_server_dashboard.Go.Numbers.{
  atoi, digits, digits_from, itoa, itoa_from, split, split_parts,
}
use game_server_dashboard.Go.Prefixes.{
  address_of, is_masked, octet, overlaps, parse_prefix, prefix_of,
}
use game_server_dashboard.Go.Text.{Text, includes_text, text, text_eq}
use game_server_dashboard.Prelude.{
  All, Bool, List, Option, [], exists_where, false, refl, some, true, ℕ, ◌&&◌, ◌==◌, ◌∷◌, ◌≡◌,
}
use game_server_dashboard.Vpn.Destination.{destination, port_bounds, port_parts}
use game_server_dashboard.Vpn.InForce.{IsInForce, active-IsInForce, lasts, offers}
use game_server_dashboard.Vpn.Policy.{Peer, Rule, Snapshot, active_snapshot}
use game_server_dashboard.Vpn.Routes.{IsAscending, route_set, route_set-IsAscending}

abbrev size_time : Text → Option ℕ
size_time [] = some 10
size_time (_ ∷ _) = some 90

abbrev no_hash : List Peer → Text
no_hash _ = []

abbrev two_rules : Snapshot
two_rules = record {
  revision = [];
  peers =
      record {
        id = 1;
        public_key = [];
        address = [];
        rules =
            record { id = 1; cidr = []; protocol = []; ports = []; expires = [] }
            ∷ record { id = 2; cidr = []; protocol = []; ports = []; expires = 1 ∷ [] }
            ∷ [];
      }
      ∷ [];
}

abbrev is_first : ℕ → Text → Text → Bool
is_first id _ _ = id == 1

abbrev is_second_rule : Rule → Bool
is_second_rule r = r.id == 2

active-IsInForce_example :
    All (IsInForce size_time 50) (active_snapshot size_time no_hash 50 two_rules).peers
    × (offers is_first is_second_rule (active_snapshot size_time no_hash 50 two_rules).peers
        ≡ offers is_first (λ r. is_second_rule r && lasts size_time 50 r) two_rules.peers)
active-IsInForce_example = active-IsInForce size_time no_hash 50 two_rules is_first is_second_rule

host_ok : destination (text "192.168.1.10/32") (text "tcp") (text "80,8000-8080") ≡ true
unfolding destination parse_prefix is_masked overlaps split split_parts prefix_of address_of octet
    digits digits_from itoa itoa_from text_eq text atoi port_parts port_bounds
host_ok = refl

pool_refused : destination (text "10.77.0.5/32") (text "tcp") (text "80") ≡ false
unfolding destination parse_prefix is_masked overlaps split split_parts prefix_of address_of octet
    digits digits_from itoa itoa_from text_eq text atoi
pool_refused = refl

abbrev routed : Peer
routed = record {
  id = 1;
  public_key = [];
  address = [];
  rules =
      record { id = 1; cidr = 50 ∷ []; protocol = []; ports = []; expires = [] }
      ∷ record { id = 2; cidr = 49 ∷ []; protocol = []; ports = []; expires = [] }
      ∷ [];
}

route_set-IsAscending_example :
    IsAscending (route_set routed.rules)
    × (includes_text (route_set routed.rules) (49 ∷ [])
        ≡ exists_where (λ (r : Rule). text_eq r.cidr (49 ∷ [])) routed.rules)
route_set-IsAscending_example = route_set-IsAscending routed (49 ∷ [])

-- ===== src/Vpn/Validity.antt =====
-- internal/vpn/policy.go: `Validate`, which the portal runs on what it hands out and the gateway on
-- what it receives. `parse_time` is time.Parse for RFC 3339, as a second, and `hash_of` the hash.
use game_server_dashboard.Go.Prefixes.{holds_address, parse_prefix}
use game_server_dashboard.Go.Text.{Text, includes_text, text_eq}
use game_server_dashboard.Prelude.{
  Bool, List, Option, [], false, if◌then◌else◌, leb, length, ltb, none, not, some, true, ℕ, ◌&&◌,
  ◌+◌, ◌==◌, ◌||◌, ◌∷◌,
}
use game_server_dashboard.Vpn.Destination.{destination, key, pool}
use game_server_dashboard.Vpn.Policy.{Peer, Rule, Snapshot}

abbrev pub is_peer_address : Text → Bool
is_peer_address s = elim (parse_prefix s) [
  | none ↦ false
  | some p ↦
      p.bits == 32
      && holds_address pool p.addr
      && not (p.addr == pool.addr + 1)
      && not (p.addr == pool.addr)
      && not (p.addr == pool.addr + 255)
]

-- The maps of the loop: what the peers and rules so far have used.
pub record Seen : Type 0 where
  pub keys : List Text
  pub addresses : List Text
  pub ids : List ℕ
  pub rules : List ℕ
  pub total : ℕ

unfoldable pub includes_number : List ℕ → ℕ → Bool
includes_number [] n = false
includes_number (m ∷ ms) n = m == n || includes_number ms n

-- The first second of the year 10000.
abbrev pub year_10000 : ℕ
year_10000 = 253402300800

module _ (parse_time : Text → Option ℕ) where
  -- An expiry that parses, in a year up to 9999.
  abbrev pub is_expiry : Text → Bool
  is_expiry s = elim (parse_time s) [ none ↦ false | some t ↦ ltb t year_10000 ]

  -- The loop over the rules of a peer, which stops at the first error.
  unfoldable pub check_rules : Seen → List Rule → Option Seen
  unfolding includes_number
  check_rules seen [] = some seen
  check_rules seen (r ∷ rs) =
      let rest =
        check_rules (record seen { rules = r.id ∷ seen.rules; total = seen.total + 1 }) rs in
      if leb (seen.total + 1) 1024
        && leb 1 r.id
        && not (includes_number seen.rules r.id)
        && destination r.cidr r.protocol r.ports
        && is_expiry r.expires
      then rest
      else none

  abbrev pub is_fresh_peer : Seen → Peer → Bool
  is_fresh_peer seen p =
      is_peer_address p.address
      && key p.public_key
      && not (includes_text seen.keys p.public_key)
      && not (includes_text seen.addresses p.address)
      && leb 1 p.id
      && not (includes_number seen.ids p.id)

  unfoldable pub check_peers : Seen → List Peer → Option Seen
  unfolding check_rules
  check_peers seen [] = some seen
  check_peers seen (p ∷ ps) =
      if is_fresh_peer seen p
      then elim (check_rules
          (record seen {
            keys = p.public_key ∷ seen.keys;
            addresses = p.address ∷ seen.addresses;
            ids = p.id ∷ seen.ids;
          })
          p.rules) [ none ↦ none | some seen' ↦ check_peers seen' ps ]
      else none

  abbrev pub nothing_seen : Seen
  nothing_seen = record { keys = []; addresses = []; ids = []; rules = []; total = 0 }

  abbrev pub is_some : {A : Type 0} → Option A → Bool
  is_some none = false
  is_some (some _) = true

  -- Validate: whether it returns no error.
  unfoldable pub validate : (List Peer → Text) → Snapshot → Bool
  unfolding check_peers
  validate hash_of s =
      text_eq s.revision (hash_of s.peers)
      && leb (length s.peers) 253
      && is_some (check_peers nothing_seen s.peers)

-- ===== src/Vpn/Policy.antt =====
-- internal/vpn/policy.go: the policy that the portal hands to the gateway, and `Active`, the part
-- of it that is in force at a time. `parse_time` is time.Parse for RFC 3339, as a second, and
-- `hash_of` the SHA-256 of the JSON encoding, from which `Hash` has removed the revision.
use game_server_dashboard.Go.Text.{Text}
use game_server_dashboard.Prelude.{
  Bool, List, Option, [], false, if◌then◌else◌, ltb, none, select, some, true, ℕ, ◌∷◌,
}

pub record Rule : Type 0 where
  pub id : ℕ
  pub cidr : Text
  pub protocol : Text
  pub ports : Text
  pub expires : Text

pub record Peer : Type 0 where
  pub id : ℕ
  pub public_key : Text
  pub address : Text
  pub rules : List Rule

pub record Snapshot : Type 0 where
  pub revision : Text
  pub peers : List Peer

pub record Ack : Type 0 where
  pub revision : Text
  pub public_key : Text

abbrev pub has_rules : List Rule → Bool
has_rules [] = false
has_rules (_ ∷ _) = true

module _ (parse_time : Text → Option ℕ) where
  -- e == nil && t.After(at)
  unfoldable pub is_unexpired : ℕ → Rule → Bool
  is_unexpired at_time r = elim (parse_time r.expires) [ some t ↦ ltb at_time t | none ↦ false ]

  -- The loop of `Active` over the peers.
  unfoldable pub active_peers : ℕ → List Peer → List Peer
  active_peers at_time [] = []
  active_peers at_time (p ∷ ps) =
      let rest = active_peers at_time ps in
      let rules = select (is_unexpired at_time) p.rules in
      if has_rules rules then record p { rules = rules } ∷ rest else rest

  unfoldable pub active_snapshot : (List Peer → Text) → ℕ → Snapshot → Snapshot
  active_snapshot hash_of at_time s =
      let peers = active_peers at_time s.peers in record { revision = hash_of peers; peers = peers }

-- ===== src/Vpn/Ruleset.antt =====
-- internal/vpn/policy.go, `Ruleset`: the text that nft loads. A rule is in it while it has a second
-- left, and its set holds the address of the peer for at most a year.
-- strings.TrimSuffix, for an end that is not empty.
use game_server_dashboard.Go.Numbers.{itoa}
use game_server_dashboard.Go.Text.{Text, text, text_eq, written}
use game_server_dashboard.Prelude.{
  Bool, Bool-cases, List, Option, [], ap, arith, false, if◌then◌else◌, inl, inr, ltb, none, refl,
  select, some, sym, true, ℕ, ◌++◌, ◌-◌, ◌∙◌, ◌∷◌, ◌≡◌, ◌≤◌,
}
use game_server_dashboard.Vpn.Policy.{
  Peer, Rule, Snapshot, active_peers, active_snapshot, has_rules, is_unexpired,
}

unfoldable pub trim_suffix : Text → Text → Text
trim_suffix end [] = []
trim_suffix end (c ∷ s) =
    let rest = trim_suffix end s in if text_eq (c ∷ s) end then [] else c ∷ rest

abbrev pub line_end : Text
line_end = 10 ∷ []

abbrev pub most_seconds : ℕ
most_seconds = 31536000

has_rules-select :
    (p : Rule → Bool) (rs : List Rule) → has_rules rs ≡ false → has_rules (select p rs) ≡ false
unfolding select
has_rules-select p [] h = refl
has_rules-select p (r ∷ rs) h = absurd (cc)

module _ (parse_time : Text → Option ℕ) where
  -- The whole seconds that a rule has left, 0 where it has none.
  unfoldable pub seconds_left : ℕ → Rule → ℕ
  seconds_left now r = elim (parse_time r.expires) [ none ↦ 0 | some t ↦ t - now ]

  abbrev pub timeout : ℕ → Rule → ℕ
  timeout now r = if ltb most_seconds (seconds_left now r) then most_seconds else seconds_left now r

  unfoldable pub set_line : ℕ → Peer → Rule → Text
  unfolding seconds_left trim_suffix written
  set_line now p r = written (
      text "set g"
      ∷ itoa r.id
      ∷ text " { type ipv4_addr; flags timeout; elements = { "
      ∷ trim_suffix (text "/32") p.address
      ∷ text " timeout "
      ∷ itoa (timeout now r)
      ∷ text "s }; }"
      ∷ line_end
      ∷ [])

  -- The two rules of the forward chain, to the destination and back.
  unfoldable pub accept_lines : ℕ → Peer → Rule → Text
  unfolding written
  accept_lines now p r = written (
      text "iifname \"wg0\" oifname \"eth0\" ip saddr @g"
      ∷ itoa r.id
      ∷ text " ip daddr "
      ∷ r.cidr
      ∷ text " "
      ∷ r.protocol
      ∷ text " dport { "
      ∷ r.ports
      ∷ text " } accept"
      ∷ line_end
      ∷ text "iifname \"eth0\" oifname \"wg0\" ip daddr @g"
      ∷ itoa r.id
      ∷ text " ip saddr "
      ∷ r.cidr
      ∷ text " "
      ∷ r.protocol
      ∷ text " sport { "
      ∷ r.ports
      ∷ text " } ct state established accept"
      ∷ line_end
      ∷ [])

  -- The loops over the rules that have a second left.
  unfoldable pub rule_lines : (Peer → Rule → Text) → ℕ → Peer → List Rule → Text
  unfolding seconds_left
  rule_lines line now p [] = []
  rule_lines line now p (r ∷ rs) =
      let rest = rule_lines line now p rs in
      if ltb (seconds_left now r) 1 then rest else line p r ++ rest

  unfoldable pub peer_lines : (Peer → Rule → Text) → ℕ → List Peer → Text
  unfolding rule_lines
  peer_lines line now [] = []
  peer_lines line now (p ∷ ps) = rule_lines line now p p.rules ++ peer_lines line now ps

  -- Ruleset
  unfoldable pub ruleset_text : ℕ → Snapshot → Text
  unfolding peer_lines set_line accept_lines written
  ruleset_text now s =
      let peers = active_peers parse_time now s.peers in
      written (
        text "delete table inet waypoint"
        ∷ line_end
        ∷ text "table inet waypoint {"
        ∷ line_end
        ∷ peer_lines (set_line now) now peers
        ∷ text
            "chain input { type filter hook input priority -10; policy accept; iifname \"wg0\" drop; }"
        ∷ line_end
        ∷ text
            "chain forward { type filter hook forward priority -10; policy drop; meta nfproto ipv6 drop; ct state invalid drop;"
        ∷ line_end
        ∷ peer_lines (accept_lines now) now peers
        ∷ text "}"
        ∷ line_end
        ∷ text
            "chain nat { type nat hook postrouting priority srcnat; policy accept; oifname \"eth0\" ip saddr 10.77.0.0/24 masquerade; }"
        ∷ line_end
        ∷ text "}"
        ∷ line_end
        ∷ [])

  -- What has run out stays out: a rule that is unexpired later was so before.
  is_unexpired_earlier :
      (now later : ℕ) (r : Rule)
      → now ≤ later
      → is_unexpired parse_time later r ≡ true
      → is_unexpired parse_time now r ≡ true
  unfolding is_unexpired
  is_unexpired_earlier now later r h e = ground arith

  select_twice :
      (now later : ℕ) (rs : List Rule)
      → now ≤ later
      → select (is_unexpired parse_time later) (select (is_unexpired parse_time now) rs)
        ≡ select (is_unexpired parse_time later) rs
  unfolding select
  select_twice now later [] h = refl
  select_twice now later (r ∷ rs) h = elim (Bool-cases (is_unexpired parse_time later r)) [
    | inl lasts ↦ rw (is_unexpired_earlier now later r h lasts, lasts, select_twice now later rs h)
    | inr over ↦ elim (Bool-cases (is_unexpired parse_time now r)) [
      | inl early ↦ rw (early, over, select_twice now later rs h)
      | inr never ↦ rw (never, over, select_twice now later rs h)
    ]
  ]

  active_peers_later :
      (now later : ℕ) (ps : List Peer)
      → now ≤ later
      → active_peers parse_time later (active_peers parse_time now ps)
        ≡ active_peers parse_time later ps
  unfolding active_peers
  active_peers_later now later [] h = refl
  active_peers_later now later (p ∷ ps) h =
      elim (Bool-cases (has_rules (select (is_unexpired parse_time now) p.rules))) [
        | inl some_left ↦
            rw (some_left, select_twice now later p.rules h, active_peers_later now later ps h)
        | inr all_over ↦
            let over : has_rules (select (is_unexpired parse_time later) p.rules) ≡ false =
              ap has_rules (sym (select_twice now later p.rules h))
              ∙ has_rules-select (is_unexpired parse_time later) _ all_over in
            rw (all_over, over, active_peers_later now later ps h)
      ]

  -- The rules that are loaded for the part of a policy that was in force earlier are those that
  -- would be loaded for the whole policy: what runs out in between is left out either way.
  pub ruleset_text-active :
      (hash_of : List Peer → Text) (now later : ℕ) (s : Snapshot)
      → now ≤ later
      → ruleset_text later (active_snapshot parse_time hash_of now s) ≡ ruleset_text later s
  unfolding ruleset_text active_snapshot
  ruleset_text-active hash_of now later s h =
      let same : active_peers parse_time later (active_peers parse_time now s.peers)
          ≡ active_peers parse_time later s.peers =
        active_peers_later now later s.peers h in
      rw same

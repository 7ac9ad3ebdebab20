-- ===== src/Vpn/Endpoint.antt =====
-- internal/vpn/policy.go: `Endpoint`. `split_host_port` stands for net.SplitHostPort.
use game_server_dashboard.Go.Numbers.{atoi}
use game_server_dashboard.Go.Text.{Text, is_blank}
use game_server_dashboard.Prelude.{
  Bool, Option, [], false, leb, none, not, some, true, ℕ, ◌&&◌, ◌==◌, ◌||◌, ◌∷◌,
}

abbrev pub is_host_char : ℕ → Bool
is_host_char c =
    leb b'a' c && leb c b'z'
    || leb b'A' c && leb c b'Z'
    || leb b'0' c && leb c b'9'
    || c == b'.'
    || c == b'-'
    || c == b':'

unfoldable pub has_host_chars : Text → Bool
has_host_chars [] = true
has_host_chars (c ∷ s) = is_host_char c && has_host_chars s

unfoldable pub endpoint : (Text → Option (Text × Text)) → Text → Bool
unfolding has_host_chars
endpoint split_host_port s = elim (split_host_port s) [
  | none ↦ false
  | some (h, p) ↦ elim (atoi p) [
    | none ↦ false
    | some n ↦ leb 1 n && leb n 65535 && not (is_blank h) && has_host_chars h
  ]
]

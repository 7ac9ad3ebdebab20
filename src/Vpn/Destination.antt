-- ===== src/Vpn/Destination.antt =====
-- internal/vpn/policy.go: `Key` and `Destination`, which decide what a policy may contain.
use game_server_dashboard.Go.Numbers.{atoi, itoa, split}
use game_server_dashboard.Go.Prefixes.{Prefix, is_masked, overlaps, parse_prefix}
use game_server_dashboard.Go.Text.{Text, text, text_eq}
use game_server_dashboard.Prelude.{
  Bool, List, Option, [], false, if◌then◌else◌, leb, length, none, not, some, suc, true, zero, ℕ,
  ◌%◌, ◌&&◌, ◌*◌, ◌++◌, ◌+◌, ◌-◌, ◌==◌, ◌||◌, ◌∷◌,
}

-- A character of the standard base64 alphabet, by its value.
unfoldable pub base64_value : ℕ → Option ℕ
base64_value c =
    if leb b'A' c && leb c b'Z'
    then some (c - 65)
    else if leb b'a' c && leb c b'z'
    then some (c - 71)
    else if leb b'0' c && leb c b'9'
    then some (c + 4)
    else if c == b'+'
    then some 62
    else if c == b'/'
    then some 63
    else none

-- The encoding of 32 bytes: 43 characters, the last of which carries four bits, and one `=`.
unfoldable pub base64_tail : ℕ → Text → Bool
unfolding base64_value
base64_tail zero s = false
base64_tail (suc n) [] = false
base64_tail (suc n) (c ∷ s) =
    let rest = base64_tail n s in
    elim (base64_value c) [
      | none ↦ false
      | some v ↦ if n == 0 then v % 4 == 0 && text_eq s (b'=' ∷ []) else rest
    ]

unfoldable pub repeat : ℕ → ℕ → Text
repeat zero c = []
repeat (suc n) c = c ∷ repeat n c

-- Key: the one encoding of 32 bytes that are not all zero.
unfoldable pub key : Text → Bool
unfolding base64_tail repeat
key s = base64_tail 43 s && not (text_eq s (repeat 43 b'A' ++ b'=' ∷ []))

-- Pool, and the networks that are reserved: 10.77.0.0/24, 0.0.0.0/8, 127.0.0.0/8, 169.254.0.0/16,
-- 224.0.0.0/3.
abbrev pub pool : Prefix
pool = record { addr = ((10 * 256 + 77) * 256 + 0) * 256 + 0; bits = 24 }

abbrev pub reserved : List Prefix
reserved =
    pool
    ∷ record { addr = 0; bits = 8 }
    ∷ record { addr = ((127 * 256 + 0) * 256 + 0) * 256 + 0; bits = 8 }
    ∷ record { addr = ((169 * 256 + 254) * 256 + 0) * 256 + 0; bits = 16 }
    ∷ record { addr = ((224 * 256 + 0) * 256 + 0) * 256 + 0; bits = 3 }
    ∷ []

unfoldable pub overlaps_any : Prefix → List Prefix → Bool
overlaps_any p [] = false
overlaps_any p (q ∷ qs) = overlaps p q || overlaps_any p qs

unfoldable pub is_destination_network : Text → Bool
unfolding overlaps_any
is_destination_network cidr = elim (parse_prefix cidr) [
  | none ↦ false
  | some p ↦ is_masked p && not (p.bits == 0) && not (overlaps_any p reserved)
]

-- The loop over the bounds of one part; `last` is the bound before.
unfoldable pub port_bounds : ℕ → List Text → Bool
port_bounds last [] = true
port_bounds last (s ∷ ss) = elim (atoi s) [
  | none ↦ false
  | some n ↦ leb 1 n && leb n 65535 && leb last n && text_eq (itoa n) s && port_bounds n ss
]

unfoldable pub port_parts : List Text → Bool
unfolding port_bounds
port_parts [] = true
port_parts (part ∷ parts) =
    leb (length (split b'-' part)) 2 && port_bounds 0 (split b'-' part) && port_parts parts

unfoldable pub port_list : Text → Bool
unfolding port_parts
port_list ports = leb (length (split b',' ports)) 32 && port_parts (split b',' ports)

-- Destination: whether it returns no error.
unfoldable pub destination : Text → Text → Text → Bool
unfolding is_destination_network port_list
destination cidr protocol ports =
    is_destination_network cidr
    && (text_eq protocol (text "tcp") || text_eq protocol (text "udp"))
    && port_list ports

-- ===== src/Go/Prefixes.antt =====
-- net/netip: IPv4 prefixes. A prefix of IPv6 is refused by every caller as a text that does not
-- parse is, so `none` stands for both.
use game_server_dashboard.Go.Numbers.{digits, itoa, split}
use game_server_dashboard.Go.Text.{Text, text_eq}
use game_server_dashboard.Prelude.{
  Bool, List, Option, [], if◌then◌else◌, leb, none, some, ℕ, ◌%◌, ◌&&◌, ◌*◌, ◌+◌, ◌-◌, ◌/◌, ◌==◌,
  ◌^◌, ◌∷◌,
}

pub record Prefix : Type 0 where
  pub addr : ℕ
  pub bits : ℕ

-- A field of a dotted address: one to three digits, with no leading zero, up to 255.
unfoldable pub octet : Text → Option ℕ
octet s = elim (digits s) [
  | none ↦ none
  | some n ↦ if leb n 255 && text_eq (itoa n) s then some n else none
]

unfoldable pub address_of : List Text → Option ℕ
unfolding octet
address_of (a ∷ b ∷ c ∷ d ∷ []) = elim (octet a) [
  | none ↦ none
  | some w ↦ elim (octet b) [
    | none ↦ none
    | some x ↦ elim (octet c) [
      | none ↦ none
      | some y ↦ elim (octet d) [
        | none ↦ none
        | some z ↦ some (((w * 256 + x) * 256 + y) * 256 + z)
      ]
    ]
  ]
]
address_of _ = none

-- netip.ParsePrefix
unfoldable pub prefix_of : List Text → Option Prefix
unfolding address_of
prefix_of (address ∷ bits ∷ []) = elim (address_of (split b'.' address)) [
  | none ↦ none
  | some a ↦ elim (digits bits) [
    | none ↦ none
    | some n ↦
        if leb n 32 && text_eq (itoa n) bits then some (record { addr = a; bits = n }) else none
  ]
]
prefix_of _ = none

unfoldable pub parse_prefix : Text → Option Prefix
unfolding prefix_of
parse_prefix s = prefix_of (split b'/' s)

-- The number of addresses of a prefix of that length.
abbrev pub block : ℕ → ℕ
block bits = 2 ^ (32 - bits)

-- p == p.Masked()
unfoldable pub is_masked : Prefix → Bool
is_masked p = p.addr % block p.bits == 0

-- Prefix.Overlaps
unfoldable pub overlaps : Prefix → Prefix → Bool
overlaps p q =
    let n = if leb p.bits q.bits then p.bits else q.bits in p.addr / block n == q.addr / block n

-- Prefix.Contains
unfoldable pub holds_address : Prefix → ℕ → Bool
holds_address p a = a / block p.bits == p.addr / block p.bits

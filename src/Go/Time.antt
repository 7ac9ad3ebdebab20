-- ===== src/Go/Time.antt =====
-- Times. `stamp(t)` writes RFC 3339 text in UTC with whole seconds, so for the years 0 to 9999 the
-- order of the texts, which the SQL compares, is the order of the seconds. A stored time is
-- therefore a number of seconds, or the empty text, which sorts below every time.
use game_server_dashboard.Prelude.{ℕ, ◌≤◌, ◌≡◌, refl, Bool, true, false, not, arith, leb}

pub data Stamp : Type 0 where
  unset : Stamp
  at : ℕ → Stamp

-- `s <= now`
abbrev pub elapsed : Stamp → ℕ → Bool
elapsed unset now = true
elapsed (at t) now = leb t now

-- `s > now`
abbrev pub upcoming : Stamp → ℕ → Bool
upcoming s now = not (elapsed s now)

-- `s = ''`
abbrev pub is_unset : Stamp → Bool
is_unset unset = true
is_unset (at _) = false

-- What has elapsed stays elapsed.
pub elapsed_mono : (s : Stamp) (a b : ℕ) → a ≤ b → elapsed s a ≡ true → elapsed s b ≡ true
elapsed_mono unset a b h e = refl
elapsed_mono (at t) a b h e = ground arith

abbrev pub minute : ℕ
minute = 60

abbrev pub hour : ℕ
hour = 3600

abbrev pub day : ℕ
day = 86400

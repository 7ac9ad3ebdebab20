-- ===== src/Portal/Admin/Settings.antt =====
-- internal/portal/admin.go: `saveSettings`.
use game_server_dashboard.Go.Text.{Text, is_blank, text, text_eq}
use game_server_dashboard.Portal.Db.{Db, Error, audit, refused, write}
use game_server_dashboard.Portal.Rows.{Media, Settings, named}
use game_server_dashboard.Portal.Types.{User}
use game_server_dashboard.Prelude.{
  Bool, Option, Result, [], false, find_where, guard, if◌then◌else◌, leb, length, none, not, ok,
  some, true, ℕ, ◌&&◌, ◌==◌, ◌>>◌, ◌||◌, ◌∷◌,
}

abbrev pub is_hex_char : ℕ → Bool
is_hex_char c = leb b'0' c && leb c b'9' || leb b'a' c && leb c b'f' || leb b'A' c && leb c b'F'

unfoldable pub is_hex : Text → Bool
is_hex [] = true
is_hex (c ∷ s) = is_hex_char c && is_hex s

-- Seven characters, "#" and six hexadecimal digits.
unfoldable pub is_accent : Text → Bool
unfolding is_hex
is_accent [] = false
is_accent (c ∷ s) = c == b'#' && length s == 6 && is_hex s

-- strings.HasPrefix with strings.TrimPrefix
unfoldable pub after_prefix : Text → Text → Option Text
after_prefix [] s = some s
after_prefix (_ ∷ _) [] = none
after_prefix (a ∷ p) (b ∷ s) = if a == b then after_prefix p s else none

-- A medium that belongs to no service.
unfoldable pub is_logo : Text → Db → Bool
unfolding after_prefix
is_logo logo db = elim (after_prefix (text "/media/") logo) [
  | none ↦ false
  | some id ↦ elim (find_where (λ (x : Media). text_eq x.id id) db.media) [
    | none ↦ false
    | some x ↦ x.service_id == 0
  ]
]

-- saveSettings
unfoldable pub save_settings : ℕ → User → Settings → Db → Db → Result Error (Unit {0}) × Db
unfolding is_accent is_logo
save_settings now u form seen db = write db (do
  guard (not (is_blank form.name) && leb (length form.name) 80 && leb (length form.description) 300)
      (refused "Provide a name and short description")
  guard (is_accent form.accent) (refused "Choose a hex accent color")
  guard (is_blank form.logo || is_logo form.logo seen) (refused "Invalid logo")
  ok (audit now u.id "save dashboard settings" (named "settings") (record db { settings = form })))

-- ===== src/Portal/Accounts/Names.antt =====
-- internal/portal/auth.go: the names and passwords that accounts may have. `create_hash` stands for
-- argon2id.CreateHash, which fails only where the random source does.
use game_server_dashboard.Prelude.{
  ℕ, Bool, true, false, ◌&&◌, ◌||◌, Option, [], ◌∷◌, leb, ◌==◌, Result, ◌>>◌, guard, require,
  length, next_id,
}
use game_server_dashboard.Go.Text.{Text, text_fold_eq}
use game_server_dashboard.Portal.Types.{Role}
use game_server_dashboard.Portal.Db.{Db, Error, refused}
use game_server_dashboard.Portal.Rows.{UserRow}

abbrev pub is_name_char : ℕ → Bool
is_name_char c =
    leb b'a' c && leb c b'z'
    || leb b'A' c && leb c b'Z'
    || leb b'0' c && leb c b'9'
    || c == b'_'
    || c == b'-'
    || c == b'.'

unfoldable pub has_name_chars : Text → Bool
has_name_chars [] = true
has_name_chars (c ∷ s) = is_name_char c && has_name_chars s

-- validUsername; a character outside ASCII has only bytes that are no name characters.
unfoldable pub valid_username : Text → Bool
unfolding has_name_chars
valid_username s = leb 3 (length s) && leb (length s) 40 && has_name_chars s

-- passwordHash
unfoldable pub password_hash : (Text → Option Text) → Text → Result Error Text
password_hash create_hash p = do
  guard (leb 12 (length p) && leb (length p) 256)
      (refused "Use a password between 12 and 256 characters.")
  require (create_hash p) (refused "random source failed")

abbrev pub names_user : Text → UserRow → Bool
names_user name u = text_fold_eq u.username name

-- INSERT INTO users: the other columns have their defaults.
unfoldable pub new_user : ℕ → Text → Text → Text → Role → Db → UserRow
new_user now username email password role db = record {
  id = next_id (λ (u : UserRow). u.id) db.users;
  username = username;
  email = email;
  password = password;
  role = role;
  enabled = true;
  generation = 1;
  created = now;
  enrollment_locked = false;
  email_verified = false;
  email_notifications = true;
}

-- ===== src/Portal/SecurityExamples.antt =====
-- The theorems of the account security at a small database.
use game_server_dashboard.Go.Text.{Text, text_eq, text_fold_eq, trim_space}
use game_server_dashboard.Go.Time.{at, unset}
use game_server_dashboard.Portal.Accounts.Factors.{clear_factors}
use game_server_dashboard.Portal.Db.{Db, Error, audit, find_user, update_users, user_of_row}
use game_server_dashboard.Portal.Fixtures.{desk, friend, note}
use game_server_dashboard.Portal.Rows.{Passkey, UserRow}
use game_server_dashboard.Portal.Security.Challenges.{take_challenge, take_challenge_tx}
use game_server_dashboard.Portal.Security.Codes.{check_totp, security_identity}
use game_server_dashboard.Portal.Security.Kept.{
  IsCleared, recovery_login-IsCleared, remove_key_keeps_method,
}
use game_server_dashboard.Portal.Security.Methods.{method_count, remove_key}
use game_server_dashboard.Portal.Security.Recovery.{find_code, recovery_login, recovery_tx}
use game_server_dashboard.Portal.Security.Replay.{take_challenge_once}
use game_server_dashboard.Portal.Types.{User}
use game_server_dashboard.Prelude.{
  Bool, Option, Result, [], count_where, err, exists_where, find_where, none, ok, refl, some, true,
  update_where, ℕ, ◌+◌, ◌∷◌, ◌≡◌, ◌≤◌,
}

abbrev passkey : Passkey
passkey = record {
  id = 1 ∷ [];
  user_id = 2;
  rp_id = [];
  credential = [];
  name = note;
  created = 0;
  used = unset;
}

-- The friend has an authenticator, a passkey, a recovery code and a security step.
abbrev secured : Db
secured = record desk {
  account_security = record { user_id = 2; totp = some note; last_step = 0 } ∷ [];
  passkeys = passkey ∷ [];
  recovery_codes = record { hash = note; user_id = 2 } ∷ [];
  auth_challenges =
      record {
        id = note;
        user_id = 2;
        generation = 1;
        purpose = note;
        payload = [];
        expires = at 500;
      }
      ∷ [];
}

abbrev every_code : Text → Text → ℕ → Bool
every_code _ _ _ = true

abbrev plain_open : ℕ → Text → Option Text
plain_open _ s = some s

abbrev after_code : Result Error (Unit {0}) × Db
after_code = check_totp every_code plain_open 100 friend note secured

abbrev open_step : Text → Text → Option Text
open_step _ s = some s

abbrev seal_step : Text → Text → Text
seal_step _ s = s

abbrev id_hash : Text → Text
id_hash s = s

abbrev after_take : Result Error Text × Db
after_take = take_challenge id_hash seal_step open_step 100 (some friend) note note secured

taken_ok : after_take ≡ (ok [], after_take.1)
unfolding take_challenge take_challenge_tx find_where text_eq
taken_ok = refl

take_challenge_once_example :
    (e : Error) × (take_challenge id_hash seal_step open_step 110 none note note after_take.1
      ≡ (err e, after_take.1))
take_challenge_once_example =
    take_challenge_once id_hash open_step seal_step 100 110 (some friend) none note note secured
      taken_ok

abbrev after_remove : Result Error (Unit {0}) × Db
after_remove = remove_key 100 friend (1 ∷ []) secured

removed_ok : after_remove ≡ (ok tt, after_remove.1)
unfolding remove_key security_identity method_count exists_where count_where text_eq
removed_ok = refl

remove_key_keeps_method_example : 1 ≤ method_count 2 after_remove.1
remove_key_keeps_method_example = remove_key_keeps_method 100 friend (1 ∷ []) secured removed_ok

abbrev recovered : User
recovered = record friend { generation = 2 }

abbrev after_recovery : Result Error User × Db
after_recovery = recovery_login id_hash 100 [] note secured

recovered_ok : after_recovery ≡ (ok recovered, after_recovery.1)
unfolding recovery_login recovery_tx find_code find_where text_eq trim_space text_fold_eq audit
    clear_factors update_users update_where find_user user_of_row
recovered_ok = refl

recovery_login-IsCleared_example :
    IsCleared 2 after_recovery.1
    × ((old : UserRow) × (find_code id_hash [] note secured secured.recovery_codes ≡ some old)
        × (2 ≡ old.generation + 1))
recovery_login-IsCleared_example = recovery_login-IsCleared id_hash 100 [] note secured recovered_ok

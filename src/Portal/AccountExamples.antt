-- ===== src/Portal/AccountExamples.antt =====
-- The theorems of the accounts at small databases.
use game_server_dashboard.Go.Text.{Text, text, text_eq, text_fold_eq}
use game_server_dashboard.Portal.Accounts.Bootstrap.{create_admin}
use game_server_dashboard.Portal.Accounts.Issued.{create_admin_sole, issue_token_sole}
use game_server_dashboard.Portal.Accounts.Names.{
  has_name_chars, new_user, password_hash, valid_username,
}
use game_server_dashboard.Portal.Accounts.Redeemed.{redeem_keeps_admins, redeem_once}
use game_server_dashboard.Portal.Accounts.Tokens.{
  add_token, is_live_for, issue_token, recommend_all, redeem, reset_password, retire_tokens,
  token_owner,
}
use game_server_dashboard.Portal.Admin.Deliveries.{link_delivery}
use game_server_dashboard.Portal.Db.{Db, Error, audit, is_enabled_admin, update_users}
use game_server_dashboard.Portal.Fixtures.{desk, friend_row, note}
use game_server_dashboard.Portal.Frame.{IsUnchanged}
use game_server_dashboard.Portal.Mail.Queue.{queue_mail, valid_email}
use game_server_dashboard.Portal.Policy.Links.{contains_any}
use game_server_dashboard.Portal.Rows.{TokenKind, UserRow}
use game_server_dashboard.Portal.Types.{is_admin}
use game_server_dashboard.Prelude.{
  Option, Result, [], append_row, count_where, exists_where, find_where, ok, refl, some, true,
  update_where, ◌∷◌, ◌≡◌,
}

abbrev no_admin : Db
no_admin = record desk { users = friend_row ∷ [] }

abbrev nick : Text
nick = text "nick"

abbrev long_password : Text
long_password = text "correct horse"

abbrev plain_hash : Text → Option Text
plain_hash s = some s

abbrev same_text : Text → Text
same_text s = s

abbrev after_create : Result Error (Unit {0}) × Db
after_create = create_admin plain_hash 50 nick long_password no_admin

created_ok : after_create ≡ (ok tt, after_create.1)
unfolding create_admin valid_username has_name_chars password_hash new_user text count_where
    exists_where find_where text_fold_eq audit
created_ok = refl

create_admin_sole_example :
    (count_where is_enabled_admin no_admin.users ≡ 0)
    × (count_where is_enabled_admin after_create.1.users ≡ 1)
    × (valid_username nick ≡ true)
    × ((u : UserRow) × (after_create.1.users ≡ append_row no_admin.users u) × (u.username ≡ nick))
create_admin_sole_example = create_admin_sole plain_hash 50 nick long_password no_admin created_ok

abbrev any_address : Text → Option Text
any_address s = some s

abbrev plain_mail : TokenKind → Text → Text
plain_mail _ token = token

abbrev mailing_desk : Db
mailing_desk = record desk { mail_settings = record desk.mail_settings { enabled = true } }

abbrev after_issue : Result Error Text × Db
after_issue =
    issue_token same_text (link_delivery any_address plain_mail same_text true 50 TokenKind.reset)
      50 1 (some TokenKind.reset) [] [] 2 [] note mailing_desk

issued_ok : after_issue ≡ (ok note, after_issue.1)
unfolding issue_token link_delivery queue_mail valid_email contains_any token_owner recommend_all
    add_token retire_tokens count_where exists_where find_where audit text_eq
issued_ok = refl

issue_token_sole_example :
    (who : Text × Text) × (token_owner TokenKind.reset [] [] 2 mailing_desk ≡ ok who)
    × (count_where (is_live_for TokenKind.reset who.0) after_issue.1.tokens ≡ 1)
issue_token_sole_example =
    issue_token_sole any_address plain_mail true same_text 50 1 TokenKind.reset [] [] 2 [] note
      mailing_desk issued_ok

abbrev after_redeem : Result Error (Unit {0}) × Db
after_redeem = redeem same_text plain_hash 60 note long_password after_issue.1

-- The member redeems the link that was issued.
redeemed_ok : after_redeem ≡ (ok tt, after_redeem.1)
unfolding issue_token link_delivery queue_mail valid_email contains_any token_owner recommend_all
    add_token retire_tokens count_where exists_where find_where audit text_eq redeem reset_password
    password_hash text append_row update_where update_users
redeemed_ok = refl

redeem_once_example :
    IsUnchanged after_redeem.1 (redeem same_text plain_hash 70 note long_password after_redeem.1)
redeem_once_example =
    redeem_once same_text plain_hash 60 70 note long_password long_password after_issue.1
      redeemed_ok

redeem_keeps_admins_example :
    count_where (λ (u : UserRow). is_admin u.role) after_redeem.1.users
    ≡ count_where (λ (u : UserRow). is_admin u.role) after_issue.1.users
redeem_keeps_admins_example =
    redeem_keeps_admins same_text plain_hash 60 note long_password after_issue.1 redeemed_ok

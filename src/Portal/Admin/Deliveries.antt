-- ===== src/Portal/Admin/Deliveries.antt =====
-- internal/portal/admin.go, adminPost: how a link that an administrator issues reaches its owner, by
-- mail or on the page. `seal` makes the payload of the mail from the kind and the token.
use game_server_dashboard.Go.Text.{Text}
use game_server_dashboard.Portal.Db.{Db, Error}
use game_server_dashboard.Portal.Frame.{ok-injective}
use game_server_dashboard.Portal.Mail.Queue.{queue_mail, valid_email}
use game_server_dashboard.Portal.Rows.{MailKind, TokenKind}
use game_server_dashboard.Prelude.{
  Bool, Option, Result, ap, false, guard-ok, if◌then◌else◌, ok, sym, true, ℕ, ◌≡◌,
}

abbrev pub mail_kind : TokenKind → MailKind
mail_kind TokenKind.invite = MailKind.invite
mail_kind TokenKind.reset = MailKind.reset
mail_kind TokenKind.factor = MailKind.factor

-- `delivery`: the mail is queued in the transaction that issues the link.
unfoldable pub link_delivery :
    (Text → Option Text)
    → (TokenKind → Text → Text)
    → (Text → Text)
    → Bool
    → ℕ
    → TokenKind
    → Text
    → Text
    → ℕ
    → Db
    → Result Error Db
link_delivery parse_address seal hash_token by_mail now kind token to user db =
    if by_mail
    then queue_mail parse_address now user (mail_kind kind) to (hash_token token) (seal kind token)
        db
    else ok db

pub link_delivery-tokens :
    (parse_address : Text → Option Text) (seal : TokenKind → Text → Text) (hash_token : Text → Text)
    (by_mail : Bool) (now : ℕ) (kind : TokenKind) (token to : Text) (user : ℕ) (db : Db) {db' : Db}
    → link_delivery parse_address seal hash_token by_mail now kind token to user db ≡ ok db'
    → db'.tokens ≡ db.tokens
unfolding link_delivery queue_mail
link_delivery-tokens parse_address seal hash_token true now kind token to user db e =
    let (_, e1) = guard-ok db.mail_settings.enabled _ _ e in
    let (_, e2) = guard-ok (valid_email parse_address to) _ _ e1 in
    sym (ap (λ (d : Db). d.tokens) (ok-injective e2))
link_delivery-tokens parse_address seal hash_token false now kind token to user db e =
    sym (ap (λ (d : Db). d.tokens) (ok-injective e))

-- ===== src/Portal/Mail/Outcomes.antt =====
-- The outcomes of a round of the mail queue of internal/portal/email.go.
use game_server_dashboard.Go.Text.{Text, is_blank}
use game_server_dashboard.Portal.Db.{Db}
use game_server_dashboard.Portal.Mail.Delivery.{
  Outcome, cancelled_as, has_live_link, is_eligible, is_notification, is_queued, is_security,
  is_sending, is_still_visible, judge, mail_body, outcome_of,
}
use game_server_dashboard.Portal.Policy.Links.{Url}
use game_server_dashboard.Portal.Rows.{MailKind, MailState, Outbox, UserRow}
use game_server_dashboard.Prelude.{
  Bool, Bool-cases, Option, Result, arith, err, exists_where, false, guard, if◌then◌else◌, inl, inr,
  leb, none, not, ok, refl, some, true, ℕ, ◌&&◌, ◌<◌, ◌==◌, ◌>>=◌, ◌>>◌, ◌||◌, ◌≡◌, ◌⊎◌,
}

-- An outcome that ends a round: a mail is put off only if it had fewer than four failed attempts.
abbrev pub IsFinal : ℕ → Outcome → Type 0
IsFinal attempts o = (is_sending o.state ≡ false) × ((is_queued o.state ≡ false) ⊎ (attempts < 4))

abbrev pub RefusesFinally : ℕ → Result Outcome (Option Text) → Type 0
RefusesFinally n (ok _) = Unit
RefusesFinally n (err o) = IsFinal n o

guard-RefusesFinally :
    (n : ℕ) (c : Bool) (o : Outcome) (rest : Result Outcome (Option Text))
    → IsFinal n o
    → RefusesFinally n rest
    → RefusesFinally n (guard c o >> rest)
guard-RefusesFinally n true o rest h more = more
guard-RefusesFinally n false o rest h more = h

bind-RefusesFinally :
    (n : ℕ) (r : Result Outcome (Option Text)) (next : Option Text → Result Outcome (Option Text))
    → RefusesFinally n r
    → ((a : Option Text) → RefusesFinally n (next a))
    → RefusesFinally n (r >>= next)
bind-RefusesFinally n (ok a) next h more = more a
bind-RefusesFinally n (err o) next h more = h

module _ (parse_url : Text → Option Url) (markdown : Text → Text) (vpn_enabled : Bool)
    (open_mail : MailKind → Option Text → Option (Option Text))
    (send : Text → Option Text → Bool) where
  mail_body-RefusesFinally :
      (m : Outbox) (n : ℕ)
      → RefusesFinally n (mail_body parse_url markdown vpn_enabled open_mail send m)
  unfolding mail_body
  mail_body-RefusesFinally m n =
      by_case (is_notification m.kind || is_security m.kind) (open_mail m.kind m.payload)
    where
      by_case :
          (own : Bool) (body : Option (Option Text))
          → RefusesFinally n (
              if own then ok none else elim body [
                | none ↦ err (record {
                  state = MailState.failed;
                  status = "Cannot decrypt queued message";
                  clear = false;
                })
                | some none ↦ err (record {
                  state = MailState.failed;
                  status = "Invalid queued message";
                  clear = true;
                })
                | some (some body) ↦ ok (some body)
              ])
      by_case true x = tt
      by_case false none = (refl, inl refl)
      by_case false (some none) = (refl, inl refl)
      by_case false (some (some body)) = tt

  judge-RefusesFinally :
      (now : ℕ) (db : Db) (m : Outbox)
      → RefusesFinally m.attempts (judge parse_url markdown vpn_enabled open_mail send now db m)
  unfolding judge
  judge-RefusesFinally now db m =
      guard-RefusesFinally m.attempts
        (m.user_id == 0 || exists_where (λ (u : UserRow). u.id == m.user_id && u.enabled) db.users)
        (cancelled_as "Account unavailable") _ (refl, inl refl)
        (guard-RefusesFinally m.attempts
          (not (is_notification m.kind || is_security m.kind) || is_eligible db m)
          (cancelled_as "Recipient no longer eligible") _ (refl, inl refl)
          (guard-RefusesFinally m.attempts
            (not (is_notification m.kind)
              || is_still_visible parse_url markdown vpn_enabled open_mail send now db m)
            (cancelled_as "Update no longer visible") _ (refl, inl refl)
            (bind-RefusesFinally m.attempts
              (mail_body parse_url markdown vpn_enabled open_mail send m) _
              (mail_body-RefusesFinally m m.attempts)
              (λ body.
                guard-RefusesFinally m.attempts (is_blank m.token_hash || has_live_link now db m)
                  (cancelled_as "Link expired or already consumed") (ok body) (refl, inl refl)
                  tt))))

  pub outcome_of-IsFinal :
      (now : ℕ) (db : Db) (m : Outbox)
      → IsFinal m.attempts (outcome_of parse_url markdown vpn_enabled open_mail send now db m)
  unfolding outcome_of
  outcome_of-IsFinal now db m =
      by_case (judge parse_url markdown vpn_enabled open_mail send now db m)
        (judge-RefusesFinally now db m)
    where
      by_case :
          (r : Result Outcome (Option Text))
          → RefusesFinally m.attempts r
          → IsFinal m.attempts (elim r [
            | err o ↦ o
            | ok body ↦
                if send m.recipient body
                then record {
                  state = MailState.sent;
                  status = "Accepted by SMTP server";
                  clear = true;
                }
                else record {
                  state = if leb 4 m.attempts then MailState.failed else MailState.queued;
                  status = "SMTP delivery failed; check connection, TLS and credentials";
                  clear = false;
                }
          ])
      by_case (err o) h = h
      by_case (ok body) h = elim (Bool-cases (send m.recipient body)) [
        | inl accepted ↦ rw accepted (refl, inl refl)
        | inr refused_by ↦ elim (Bool-cases (leb 4 m.attempts)) [
          | inl last ↦ rw (refused_by, last) (refl, inl refl)
          | inr early ↦ rw (refused_by, early) (refl, inr (ground arith))
        ]
      ]

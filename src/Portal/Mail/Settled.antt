-- ===== src/Portal/Mail/Settled.antt =====
-- What a round of the mail queue of internal/portal/email.go leaves.
use game_server_dashboard.Go.Text.{Text, text_eq}
use game_server_dashboard.Portal.Db.{Db}
use game_server_dashboard.Portal.Mail.Delivery.{is_queued, is_sending}
use game_server_dashboard.Portal.Rows.{Outbox}
use game_server_dashboard.Prelude.{[], false, true, ℕ, ◌<◌, ◌==◌, ◌≡◌, ◌⊎◌}

abbrev pub IsLeased : ℕ → Text → Outbox → Type 0
IsLeased id lease x = ((x.id == id) ≡ false) ⊎ (text_eq x.lease lease ≡ true)

-- A row that is not of the mail `m`, or one of which no lease is left: it is sent, failed or cancelled,
-- or it had fewer than four failed attempts and is tried again later.
abbrev pub IsSettled : ℕ → Outbox → Outbox → Type 0
IsSettled now m x =
    ((x.id == m.id) ≡ false)
    ⊎ ((x.lease ≡ [])
        × (is_sending x.state ≡ false)
        × ((is_queued x.state ≡ false) ⊎ ((m.attempts < 4) × (now < x.available))))

-- ===== src/Portal/Frame.antt =====
-- What the writes of internal/portal/db.go leave alone: notifications and audit entries touch no
-- table that a decision reads.
use Prim.Native.String.{String}
use game_server_dashboard.Portal.Db.{
  Db, Error, audit, insert_notification, insert_notifications, is_enabled_admin, notify,
  notify_admins, write, write_value,
}
use game_server_dashboard.Portal.Rows.{Target, UserRow}
use game_server_dashboard.Prelude.{
  Bool, Bool-cases, List, Result, [], ap, err, inl, inr, ok, refl, ℕ, ◌∙◌, ◌∷◌, ◌≡◌,
}

-- A database that differs in notifications, queued mail and the audit log only.
pub record SameTables (a b : Db) : Type 0 where
  pub users : b.users ≡ a.users
  pub categories : b.categories ≡ a.categories
  pub services : b.services ≡ a.services
  pub requests : b.requests ≡ a.requests
  pub transitions : b.transitions ≡ a.transitions
  pub access_records : b.access_records ≡ a.access_records
  pub tokens : b.tokens ≡ a.tokens
  pub vpn_devices : b.vpn_devices ≡ a.vpn_devices
  pub vpn_targets : b.vpn_targets ≡ a.vpn_targets
  pub vpn_grants : b.vpn_grants ≡ a.vpn_grants
  pub vpn_deliveries : b.vpn_deliveries ≡ a.vpn_deliveries

pub SameTables-refl : (a : Db) → SameTables a a
SameTables-refl a = record {
  users = refl;
  categories = refl;
  services = refl;
  requests = refl;
  transitions = refl;
  access_records = refl;
  tokens = refl;
  vpn_devices = refl;
  vpn_targets = refl;
  vpn_grants = refl;
  vpn_deliveries = refl;
}

pub SameTables-trans : {a b c : Db} → SameTables a b → SameTables b c → SameTables a c
SameTables-trans p q = record {
  users = q.users ∙ p.users;
  categories = q.categories ∙ p.categories;
  services = q.services ∙ p.services;
  requests = q.requests ∙ p.requests;
  transitions = q.transitions ∙ p.transitions;
  access_records = q.access_records ∙ p.access_records;
  tokens = q.tokens ∙ p.tokens;
  vpn_devices = q.vpn_devices ∙ p.vpn_devices;
  vpn_targets = q.vpn_targets ∙ p.vpn_targets;
  vpn_grants = q.vpn_grants ∙ p.vpn_grants;
  vpn_deliveries = q.vpn_deliveries ∙ p.vpn_deliveries;
}

pub insert_notification-SameTables :
    (now user req acc device : ℕ) (t : String) (db : Db)
    → SameTables db (insert_notification now user req acc device t db)
unfolding insert_notification
insert_notification-SameTables now user req acc device t db = record {
  users = refl;
  categories = refl;
  services = refl;
  requests = refl;
  transitions = refl;
  access_records = refl;
  tokens = refl;
  vpn_devices = refl;
  vpn_targets = refl;
  vpn_grants = refl;
  vpn_deliveries = refl;
}

pub audit-SameTables :
    (now actor : ℕ) (action : String) (target : Target) (db : Db)
    → SameTables db (audit now actor action target db)
unfolding audit
audit-SameTables now actor action target db = record {
  users = refl;
  categories = refl;
  services = refl;
  requests = refl;
  transitions = refl;
  access_records = refl;
  tokens = refl;
  vpn_devices = refl;
  vpn_targets = refl;
  vpn_grants = refl;
  vpn_deliveries = refl;
}

pub insert_notifications-SameTables :
    (now : ℕ) (p : UserRow → Bool) (req acc device : ℕ) (t : String) (us : List UserRow) (db : Db)
    → SameTables db (insert_notifications now p req acc device t us db)
unfolding insert_notifications
insert_notifications-SameTables now p req acc device t [] db = SameTables-refl db
insert_notifications-SameTables now p req acc device t (u ∷ us) db = elim (Bool-cases (p u)) [
  | inl e ↦ rw e (
      SameTables-trans (insert_notification-SameTables now u.id req acc device t db)
        (insert_notifications-SameTables now p req acc device t us _))
  | inr e ↦ rw e (insert_notifications-SameTables now p req acc device t us db)
]

pub notify-SameTables :
    (now user req acc : ℕ) (t : String) (db : Db) → SameTables db (notify now user req acc t db)
unfolding notify
notify-SameTables now user req acc t db = insert_notification-SameTables now user req acc 0 t db

pub notify_admins-SameTables :
    (now req : ℕ) (t : String) (db : Db) → SameTables db (notify_admins now req t db)
unfolding notify_admins
notify_admins-SameTables now req t db =
    insert_notifications-SameTables now is_enabled_admin req 0 0 t db.users db

-- Results of a transaction.
pub ok-injective : {A : Type 0} {a b : A} → ◌≡◌ {A = Result Error A} (ok a) (ok b) → a ≡ b
ok-injective h = cc

pub pair-injective :
    {A : Type 0} {a b : A × Db} → ◌≡◌ {A = Result Error (A × Db)} (ok a) (ok b) → a ≡ b
pair-injective h = cc

pub write-ok :
    (db : Db) (m : Result Error Db) {x : Unit {0}} {d : Db} → write db m ≡ (ok x, d) → m ≡ ok d
write-ok db (ok d') h = ap ok (ap (λ (p : Result Error (Unit {0}) × Db). p.1) h)
write-ok db (err e) h = absurd (cc (ap (λ (p : Result Error (Unit {0}) × Db). p.0) h))

pub write_value-ok :
    {A : Type 0} (db : Db) (m : Result Error (A × Db)) {x : A} {d : Db}
    → write_value db m ≡ (ok x, d)
    → m ≡ ok (x, d)
write_value-ok {A} db (ok (a, d')) h =
    let same : a ≡ _ = ok-injective (ap (λ (p : Result Error A × Db). p.0) h) in
    rw (same, ap (λ (p : Result Error A × Db). p.1) h)
write_value-ok {A} db (err e) h = absurd (cc (ap (λ (p : Result Error A × Db). p.0) h))

-- A call that fails leaves the database as it was.
abbrev pub IsUnchanged : Db → Result Error (Unit {0}) × Db → Type 0
IsUnchanged db out = (e : Error) × (out ≡ (err e, db))

-- A call that cannot succeed leaves the database as it was.
pub write-IsUnchanged :
    (db : Db) (m : Result Error Db)
    → ((d : Db) → write db m ≡ (ok tt, d) → ⊥)
    → IsUnchanged db (write db m)
write-IsUnchanged db (ok d) h = absurd (h d refl)
write-IsUnchanged db (err e) h = (e, refl)

pub write_value-refused :
    {A : Type 0} (db : Db) (m : Result Error (A × Db))
    → ((a : A) (d : Db) → write_value db m ≡ (ok a, d) → ⊥)
    → (e : Error) × (write_value db m ≡ (err e, db))
write_value-refused db (ok (a, d)) h = absurd (h a d refl)
write_value-refused db (err e) h = (e, refl)

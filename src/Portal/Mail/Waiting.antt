-- ===== src/Portal/Mail/Waiting.antt =====
-- The mails that a round of the queue of internal/portal/email.go may take.
use game_server_dashboard.Portal.Mail.Delivery.{delay, is_queued, is_sending, released}
use game_server_dashboard.Portal.Rows.{MailState, Outbox}
use game_server_dashboard.Prelude.{
  Bool, Bool-cases, List, [], ap, arith, exists_where, find_where, if◌then◌else◌, inl, inr, leb,
  ltb, refl, some, suc, sym, true, update_where, zero, ℕ, ◌&&◌, ◌<◌, ◌==◌, ◌^◌, ◌||◌, ◌∙◌, ◌∷◌, ◌≡◌,
}

-- A mail that is due, or whose lease has run out.
abbrev pub is_waiting : ℕ → Outbox → Bool
is_waiting now x =
    is_queued x.state && leb x.available now || is_sending x.state && ltb x.available now

abbrev pub is_due_now : ℕ → Outbox → Bool
is_due_now now x = is_queued x.state && leb x.available now

-- A row once the leases that have run out are given up.
abbrev freed : ℕ → Outbox → Outbox
freed now x =
    if is_sending x.state && ltb x.available now
    then record x { state = MailState.queued; lease = [] }
    else x

freed-id : (now : ℕ) (x : Outbox) → (freed now x).id ≡ x.id
freed-id now x = elim (Bool-cases (is_sending x.state && ltb x.available now)) [
  | inl e ↦ rw e refl
  | inr e ↦ rw e refl
]

freed-due : (now : ℕ) (x : Outbox) → is_due_now now (freed now x) ≡ is_waiting now x
freed-due now x = elim (Bool-cases (is_sending x.state && ltb x.available now)) [
  | inl e ↦ rw e (ground arith)
  | inr e ↦ rw e (ground arith)
]

-- A mail that waits is due once the leases that have run out are given up.
pub released-due :
    (now : ℕ) (rows : List Outbox)
    → exists_where (is_waiting now) rows ≡ true
    → (m : Outbox) × (find_where (is_due_now now) (released now rows) ≡ some m)
unfolding released update_where exists_where find_where
released-due now [] h = absurd (cc)
released-due now (x ∷ rows) h = elim (Bool-cases (is_waiting now x)) [
  | inl w ↦ (freed now x, rw (freed-due now x ∙ w) refl)
  | inr w ↦
      let (m, found) = released-due now rows (rw w at h) in (m, rw (freed-due now x ∙ w) found)
]

-- A mail that is due by then was waiting.
pub due-waiting :
    (now : ℕ) (rows : List Outbox) {m : Outbox}
    → find_where (is_due_now now) (released now rows) ≡ some m
    → exists_where (λ (x : Outbox). x.id == m.id && is_waiting now x) rows ≡ true
unfolding released update_where exists_where find_where
due-waiting now [] e = absurd (cc)
due-waiting now (x ∷ rows) {m} e = elim (Bool-cases (is_waiting now x)) [
  | inl w ↦
      let taken : some (freed now x) ≡ some m = rw (freed-due now x ∙ w) at e in
      let same : freed now x ≡ m = cc in
      let id_same : x.id ≡ m.id = sym (freed-id now x) ∙ ap (λ (y : Outbox). y.id) same in
      rw (w, id_same) (ground arith)
  | inr w ↦
      let rest : exists_where (λ (y : Outbox). y.id == m.id && is_waiting now y) rows ≡ true =
        due-waiting now rows {m = m} (rw (freed-due now x ∙ w) at e) in
      rw (rest) (ground arith)
]

power-positive : (n : ℕ) → 0 < 2 ^ n
power-positive zero = omega arith
power-positive (suc n) = let h : 0 < 2 ^ n = power-positive n in omega arith

pub delay-positive : (n : ℕ) → 0 < delay n
delay-positive n =
    let h : 0 < 2 ^ (if ltb n 8 then n else 8) = power-positive (if ltb n 8 then n else 8) in
    omega arith

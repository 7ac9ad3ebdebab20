-- ===== src/Vpn/Outcomes.antt =====
-- Steps of the gateway of internal/vpn/gateway.go that may fail: what holds after them.
-- A result whose value, or whose failure, satisfies a predicate.
use Prim.Native.String.{String}
use game_server_dashboard.Go.Text.{Text}
use game_server_dashboard.Prelude.{
  Bool, Option, Option-cases, Result, err, false, inl, inr, none, ok, refl, require, some, subst,
  true, ◌>>=◌, ◌>>◌, ◌≡◌,
}
use game_server_dashboard.Vpn.Host.{
  Command, Failure, Machine, Stored, World, after_command, atomic_file, check, command, counted,
  execute, finally, saved, unsaved, unsynced, world_of,
}

abbrev pub Ends : {A : Type 0} → (World → Type 0) → (A → Type 0) → Result Failure A → Type 0
Ends bad good (ok a) = good a
Ends bad good (err e) = bad e.world

module _ (bad : World → Type 0) where
  pub bind-Ends :
      {A B : Type 0} (good : A → Type 0) (last : B → Type 0) (r : Result Failure A)
      (next : A → Result Failure B)
      → Ends bad good r
      → ((a : A) → good a → Ends bad last (next a))
      → Ends bad last (r >>= next)
  bind-Ends good last (ok a) next h step = step a h
  bind-Ends good last (err e) next h step = h

  pub check-Ends :
      {B : Type 0} (last : B → Type 0) (c : Bool) (message : String) (w : World)
      (next : Result Failure B)
      → bad w
      → (c ≡ true → Ends bad last next)
      → Ends bad last (check c message w >> next)
  check-Ends last true message w next h step = step refl
  check-Ends last false message w next h step = h

  pub require-Ends :
      {A B : Type 0} (last : B → Type 0) (o : Option A) (message : String) (w : World)
      (next : A → Result Failure B)
      → bad w
      → ((a : A) → o ≡ some a → Ends bad last (next a))
      → Ends bad last (require o (record { message = message; world = w }) >>= next)
  require-Ends last (some a) message w next h step = step a refl
  require-Ends last none message w next h step = h

  pub execute-Ends :
      (m : Machine) (good : World → Type 0) (c : Command) (w : World)
      → good (counted (after_command c w))
      → bad (counted w)
      → Ends bad good (execute m c w)
  unfolding execute command
  execute-Ends m good c w done not_run = elim (Option-cases (m.run w.calls c)) [
    | inl e ↦ rw (Ends, e) not_run
    | inr (out, e) ↦ rw (Ends, e) done
  ]

  pub atomic_file-Ends :
      (m : Machine) (good : World → Type 0) (place : Text → World → World) (s : Text) (w : World)
      → good (place s (counted w))
      → bad (counted w)
      → bad (place s (counted w))
      → Ends bad good (atomic_file m place s w)
  unfolding atomic_file
  atomic_file-Ends m good place s w done not_run not_synced = by_case (m.stored w.calls)
    where
      by_case :
          (x : Stored)
          → Ends bad good (elim x [
            | saved ↦ ok (place s (counted w))
            | unsaved ↦ err (record { message = "write failed"; world = counted w })
            | unsynced ↦ err (record { message = "sync failed"; world = place s (counted w) })
          ])
      by_case saved = done
      by_case unsaved = not_run
      by_case unsynced = not_synced

pub finally-Ends :
    (bad good bad' good' : World → Type 0) (f : World → World) (r : Result Failure World)
    → Ends bad good r
    → ((w : World) → good w → good' (f w))
    → ((w : World) → bad w → bad' (f w))
    → Ends bad' good' (finally f r)
finally-Ends bad good bad' good' f (ok w) h g b = g w h
finally-Ends bad good bad' good' f (err e) h g b = b e.world h

pub world_of-Ends :
    (bad good : World → Type 0) (r : Result Failure World)
    → Ends bad good r
    → ((w : World) → good w → bad w)
    → bad (world_of r)
world_of-Ends bad good (ok w) h weaker = weaker w h
world_of-Ends bad good (err e) h weaker = h

-- What holds of every result of success.
pub ok-Ends :
    {A : Type 0} (bad : World → Type 0) (good : A → Type 0) (r : Result Failure A) {a : A}
    → Ends bad good r
    → r ≡ ok a
    → good a
ok-Ends bad good r {a} h e = subst (Ends bad good) e h

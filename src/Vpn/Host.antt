-- ===== src/Vpn/Host.antt =====
-- internal/vpn/gateway.go: the gateway process and the machine that it runs on. The machine is a
-- parameter: what the commands ip, wg and nft answer, whether a file can be written or read, and
-- the clock, each at the number of the call. A load by nft is atomic, and a command that fails
-- changes nothing. A file that `atomicFile` has renamed into place but not synced holds the new
-- content although the call fails.
--
-- Not modelled: the time limits of the commands, and the directories and modes of the files.
use Prim.Native.String.{String}
use game_server_dashboard.Go.Text.{Text}
use game_server_dashboard.Go.Time.{Stamp}
use game_server_dashboard.Prelude.{
  Bool, List, Option, Result, err, guard, if◌then◌else◌, none, ok, some, ℕ, ◌+◌, ◌>>=◌,
}
use game_server_dashboard.Vpn.Policy.{Ack, Snapshot}

pub data Command : Type 0 where
  make_directory list_table add_table generate_key show_link add_link set_address set_link : Command
  derive_key load_rules sync_peers : Text → Command

pub data Stored : Type 0 where
  saved unsaved unsynced : Stored

pub record Machine : Type 0 where
  pub run : ℕ → Command → Option Text
  pub stored : ℕ → Stored
  pub readable : ℕ → Bool
  pub clock : ℕ → ℕ

-- The Gateway with what it has done: the rules that nft has, with the number of the call that has
-- loaded them (the timeouts of its sets count from then), the peers that wg has, the files, the
-- acknowledgments sent.
pub record World : Type 0 where
  pub calls : ℕ
  pub port : ℕ
  pub public_key : Text
  pub desired : Snapshot
  pub applied : Text
  pub applied_until : Stamp
  pub has_policy : Bool
  pub loaded : Text
  pub loaded_call : ℕ
  pub peers : Text
  pub server_key : Option Text
  pub policy_file : Option Text
  pub config_file : Option Text
  pub acks : List Ack

-- An error leaves the world as it has become by then.
pub record Failure : Type 0 where
  pub message : String
  pub world : World

abbrev pub counted : World → World
counted w = record w { calls = w.calls + 1 }

abbrev pub after_command : Command → World → World
after_command (load_rules rules) w = record w { loaded = rules; loaded_call = w.calls }
after_command (sync_peers conf) w = record w { peers = conf }
after_command _ w = w

abbrev pub check : Bool → String → World → Result Failure (Unit {0})
check ok_so_far message w = guard ok_so_far (record { message = message; world = w })

-- The result with its world changed, on success and on failure.
abbrev pub finally : (World → World) → Result Failure World → Result Failure World
finally f (ok w) = ok (f w)
finally f (err e) = err (record e { world = f e.world })

abbrev pub world_of : Result Failure World → World
world_of (ok w) = w
world_of (err e) = e.world

-- os.ReadFile
pub data Reading : Type 0 where
  contents : Text → Reading
  missing unreadable : Reading

module _ (m : Machine) where
  unfoldable pub command : Command → World → Result Failure (Text × World)
  command c w = elim (m.run w.calls c) [
    | none ↦ err (record { message = "command failed"; world = counted w })
    | some output ↦ ok (output, counted (after_command c w))
  ]

  -- A command whose output is not read.
  unfoldable pub execute : Command → World → Result Failure World
  unfolding command
  execute c w = do done ← command c w; ok (done.1)

  -- atomicFile; `place` puts the content where the file stands.
  unfoldable pub atomic_file : (Text → World → World) → Text → World → Result Failure World
  atomic_file place content w = elim (m.stored w.calls) [
    | saved ↦ ok (place content (counted w))
    | unsaved ↦ err (record { message = "write failed"; world = counted w })
    | unsynced ↦ err (record { message = "sync failed"; world = place content (counted w) })
  ]

  unfoldable pub read_file : Option Text → World → Reading
  read_file file w =
      if m.readable w.calls then elim file [ none ↦ missing | some s ↦ contents s ] else unreadable

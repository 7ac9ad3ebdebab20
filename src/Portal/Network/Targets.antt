-- ===== src/Portal/Network/Targets.antt =====
-- internal/portal/vpn.go: `SaveNetworkTarget`.
use game_server_dashboard.Go.Text.{trim_space}
use game_server_dashboard.Portal.Db.{Db, Error, audit, refused, write}
use game_server_dashboard.Portal.Rows.{item}
use game_server_dashboard.Portal.Types.{ServiceRow, User, is_admin}
use game_server_dashboard.Portal.VpnTypes.{NetworkTarget}
use game_server_dashboard.Prelude.{
  Result, append_row, count_where, guard, if◌then◌else◌, leb, length, next_id, not, ok,
  update_where, ℕ, ◌&&◌, ◌+◌, ◌==◌, ◌>>◌,
}
use game_server_dashboard.Vpn.Destination.{destination}

unfoldable pub save_target_tx : ℕ → User → NetworkTarget → Db → Result Error Db
save_target_tx now u t db = do
  guard (count_where (λ (s : ServiceRow). s.id == t.service_id && not s.archived) db.services == 1)
      (refused "Choose an existing service")
  let same =
      λ (x : NetworkTarget). x.id == t.id && x.service_id == t.service_id && x.version == t.version
  let new_id = next_id (λ (x : NetworkTarget). x.id) db.vpn_targets
  if t.id == 0
      then ok (
          audit now u.id "vpn.target.save" (item "network-target" new_id) (record db {
            vpn_targets = append_row db.vpn_targets (record t { id = new_id; version = 1 });
          }))
      else (do
        guard (count_where same db.vpn_targets == 1)
            (refused "Destination changed; reload. Its associated service cannot be changed.")
        ok (
            audit now u.id "vpn.target.save" (item "network-target" t.id) (record db {
              vpn_targets =
                  update_where same
                    (λ x. record x {
                      label = t.label;
                      cidr = t.cidr;
                      protocol = t.protocol;
                      ports = t.ports;
                      enabled = t.enabled;
                      version = x.version + 1;
                    })
                    db.vpn_targets;
            })))

-- SaveNetworkTarget
unfoldable pub save_target : ℕ → User → NetworkTarget → Db → Result Error (Unit {0}) × Db
unfolding save_target_tx
save_target now u t db = write db (do
  guard (is_admin u.role) (refused "Administrator required")
  guard (leb 1 (length (trim_space t.label)) && leb (length t.label) 100)
      (refused "Provide a short destination label")
  guard (destination t.cidr t.protocol t.ports) (refused "invalid destination")
  save_target_tx now u t db)

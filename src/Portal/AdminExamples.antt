-- ===== src/Portal/AdminExamples.antt =====
-- The theorems of the administration at small databases.
use game_server_dashboard.Go.Text.{Text}
use game_server_dashboard.Portal.Admin.Cuts.{IsNoAccess, IsNoDevice, IsNoLink, save_member_cuts}
use game_server_dashboard.Portal.Admin.Destruction.{delete, destroy_service, is_referenced}
use game_server_dashboard.Portal.Admin.Hidden.{destroy_service_hides}
use game_server_dashboard.Portal.Admin.Members.{member_checks, save_member}
use game_server_dashboard.Portal.Admin.Usable.{save_member_keeps_admin}
use game_server_dashboard.Portal.Db.{Db, Error, is_enabled_admin}
use game_server_dashboard.Portal.Fixtures.{desk, friend, owner, plex}
use game_server_dashboard.Portal.Policy.Audiences.{discover, find_service}
use game_server_dashboard.Portal.Policy.Links.{Url}
use game_server_dashboard.Portal.Policy.Pages.{permitted, shown_service}
use game_server_dashboard.Portal.Policy.Withheld.{Withholds, permitted-Withholds}
use game_server_dashboard.Portal.Types.{Service, member}
use game_server_dashboard.Prelude.{
  All, Option, Result, arith, count_where, exists_where, false, find_where, none, ok, refl, some,
  true, ◌<◌, ◌≡◌,
}

abbrev after_disable : Result Error (Unit {0}) × Db
after_disable = save_member 100 owner 2 (some member) false true desk

disabled_ok : after_disable ≡ (ok tt, after_disable.1)
unfolding save_member member_checks find_where count_where
disabled_ok = refl

save_member_keeps_admin_example : 0 < count_where is_enabled_admin after_disable.1.users
unfolding count_where
save_member_keeps_admin_example =
    save_member_keeps_admin 100 owner 2 (some member) false true desk (omega arith) (omega arith)
      disabled_ok

save_member_cuts_example :
    All (IsNoAccess 2) after_disable.1.access_records
    × All (IsNoDevice 2) after_disable.1.vpn_devices
    × All (IsNoLink 2) after_disable.1.tokens
save_member_cuts_example = save_member_cuts 100 owner 2 (some member) true desk disabled_ok

abbrev no_url : Text → Option Url
no_url _ = none

abbrev same_markdown : Text → Text
same_markdown s = s

abbrev plex_page : Option Service
plex_page = permitted no_url same_markdown desk 100 (some friend) plex

abbrev page : Service
page = shown_service no_url same_markdown desk 100 (some friend) plex

page_ok : plex_page ≡ some page
unfolding permitted discover count_where find_where
page_ok = refl

permitted-Withholds_example :
    (discover desk 100 (some friend) (some plex) ≡ true)
    × Withholds no_url same_markdown desk 100 (some friend) plex page
permitted-Withholds_example =
    permitted-Withholds no_url same_markdown desk 100 (some friend) plex page_ok

-- A request refers to the service, so it is archived.
abbrev after_destroy : Result Error (Unit {0}) × Db
after_destroy = destroy_service 100 owner 5 delete true desk

destroyed_ok : after_destroy ≡ (ok tt, after_destroy.1)
unfolding destroy_service is_referenced exists_where
destroyed_ok = refl

destroy_service_hides_example :
    (discover after_destroy.1 110 (some friend) (find_service 5 after_destroy.1) ≡ false)
    × (after_destroy.1.requests ≡ desk.requests)
    × (after_destroy.1.access_records ≡ desk.access_records)
    × (after_destroy.1.vpn_grants ≡ desk.vpn_grants)
destroy_service_hides_example =
    destroy_service_hides 100 110 owner (some friend) 5 delete true desk refl destroyed_ok

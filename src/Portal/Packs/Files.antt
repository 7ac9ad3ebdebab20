-- ===== src/Portal/Packs/Files.antt =====
-- internal/portal/packs.go: `connectionPack`, the files of a pack. `encode` stands for the base64
-- encoding of a key, `zip` for the archive writer and `split_host_port` for net.SplitHostPort.
use game_server_dashboard.Go.Numbers.{itoa}
use game_server_dashboard.Go.Text.{Text, is_blank, text}
use game_server_dashboard.Portal.Db.{Error, refused}
use game_server_dashboard.Prelude.{
  List, Option, Result, [], guard, not, require, ℕ, ◌&&◌, ◌++◌, ◌>>◌, ◌∷◌,
}
use game_server_dashboard.Vpn.Destination.{key}
use game_server_dashboard.Vpn.Endpoint.{endpoint}

abbrev newline : ℕ
newline = 10

-- Each line with the newline after it.
unfoldable pub lines : List Text → Text
lines [] = []
lines (s ∷ ss) = s ++ (newline ∷ lines ss)

unfoldable pub wireguard_conf : Text → Text → Text → Text → Text → Text
unfolding lines
wireguard_conf private_key address server_key portal_endpoint route_list = lines (
    text "[Interface]"
    ∷ (text "PrivateKey = " ++ private_key)
    ∷ (text "Address = " ++ address)
    ∷ text "MTU = 1280"
    ∷ []
    ∷ text "[Peer]"
    ∷ (text "PublicKey = " ++ server_key)
    ∷ (text "Endpoint = " ++ portal_endpoint)
    ∷ (text "AllowedIPs = " ++ route_list)
    ∷ text "PersistentKeepalive = 25"
    ∷ [])

unfoldable pub read_me : ℕ → Text
unfolding lines
read_me id =
    lines (
      text "Your Waypoint connection"
      ∷ text ""
      ∷ text "1. Install the official WireGuard app: https://www.wireguard.com/install/"
      ∷ text "2. Extract this ZIP (Windows: right-click > Extract All; macOS: double-click;"
      ∷ text "   iPhone/iPad: tap the ZIP in Files; Android: extract using your Files app)."
      ∷ [])
    ++ (text "3. Open WireGuard. Choose Add tunnel / Import from file, then select wp"
        ++ (itoa id
            ++ (text ".conf."
                ++ (newline
                    ∷ lines (
                        text
                          "4. Turn on that tunnel. Return to Waypoint and open your approved service."
                        ∷ text ""
                        ∷ text
                            "You do not need to open or edit the configuration, or copy any keys."
                        ∷ text
                            "Use this pack on ONE device. Add another device in Waypoint for another computer"
                        ∷ text
                            "or phone. This file contains your private connection key: do not share it or"
                        ∷ text
                            "paste it into a ticket. After importing, remove the ZIP and extracted files"
                        ∷ text "from Downloads, shared folders, and cloud-synced storage."
                        ∷ text ""
                        ∷ text
                            "Waypoint offers this pack once. If you lose it or need an updated pack, choose"
                        ∷ text
                            "Replace connection pack in My Devices. Replacement retires the old connection"
                        ∷ text
                            "and needs administrator approval again. Additional destinations may require an"
                        ∷ text
                            "updated pack. Expiring the download does not disable a VPN peer; your approved"
                        ∷ text "network permissions have their own expiry, enforced at the gateway."
                        ∷ text ""
                        ∷ text
                            "Only approved destinations work. This is not general access to your friend's"
                        ∷ text
                            "network or a replacement for the service's account. DNS settings stay unchanged."
                        ∷ text
                            "For help, open the relevant service in Waypoint and choose Get Help. Never attach"
                        ∷ text "or paste this configuration into the discussion."
                        ∷ [])))))

unfoldable pub connection_pack :
    (Text → Option (Text × Text))
    → (Text → Text)
    → (List (Text × Text) → Option Text)
    → ℕ
    → Text
    → Text
    → Text
    → Text
    → Text
    → Result Error Text
unfolding wireguard_conf read_me
connection_pack split_host_port encode zip id private_key address server_key portal_endpoint
      route_list =
    do
      guard
          (endpoint split_host_port portal_endpoint && key server_key && not (is_blank route_list))
          (refused "Connection settings are incomplete")
      let conf = wireguard_conf (encode private_key) address server_key portal_endpoint route_list
      require
          (zip (
            (text "wp" ++ (itoa id ++ text ".conf"), conf) ∷ (text "READ-ME.txt", read_me id) ∷ []))
          (refused "the archive could not be written")

-- ===== src/Lib.antt =====
-- Waypoint, the portal and network gateway of a shared game server (Go). The portal keeps a SQLite
-- database of members, services, requests, access records and network devices, and serves the web
-- pages; the gateway fetches the network policy from the portal and enforces it.
--
-- Files and the code they model:
--   Prelude             shared tests, results with do blocks, tables as lists of rows
--   Go                  strings as lists of bytes (Text), stored times (Time), decimal numbers
--                       (Numbers), IPv4 prefixes (Prefixes)
--   Portal/Types        internal/portal/types.go
--   Portal/Rows         the other tables of internal/portal/schema.sql and security.sql
--   Portal/VpnTypes     the tables of internal/portal/vpn.sql and packs.sql
--   Portal/Db           internal/portal/db.go: Write and audit, the triggers on notifications and
--                       users, notify and notifyAdmins
--   Portal/Policy       internal/portal/policy.go: hasAccess, audience, categoryAllowed, service,
--                       discover (Audiences), validURL, links and announcements (Links), permitted
--                       (Pages)
--   Portal/Requests     internal/portal/requests.go: the request machine (Machine), grant (Grant),
--                       Submit (Handlers), Reply and Transition (Updates), Accesses and
--                       visibleNotifications (Inbox)
--   Portal/Limits       internal/portal/auth.go: Limited
--   Portal/Accounts     internal/portal/auth.go: validUsername and passwordHash (Names),
--                       CreateAdmin and recoverAccount (Bootstrap), issueToken and Redeem
--                       (Tokens); clearFactors of internal/portal/security.go (Factors)
--   Portal/Admin        internal/portal/admin.go: saveService (Services, its form in ServiceForms),
--                       saveCategory, saveLink and saveAnnouncement (Editors, with Checks),
--                       saveSettings (Settings), destroyService and the other deletions
--                       (Destruction), saveMember (Members), saveAccess (Access), followups
--                       (Followups); Reconcile of internal/portal/requests.go (Access),
--                       the delivery of links in adminPost (Deliveries)
--   Portal/Security     internal/portal/security.go: checkTOTP (Codes), challenge and takeChallenge
--                       (Challenges), login methods and recovery codes (Methods), recoveryLogin
--                       (Recovery)
--   Portal/Mail         internal/portal/email.go: queueMail (Queue), updateEmail and verifyEmail
--                       (Addresses), the SMTP settings, the retry and factorReset (Operations),
--                       deliverOneUsing (Delivery)
--   Portal/Packs        internal/portal/packs.go: packServiceAllowed, createPackDevice (Creation),
--                       connectionPack (Files), consumePack (Consumption)
--   Portal/Devices      internal/portal/vpn.go: vpnSnapshot, RevokeDevice and expireVPN
--   Portal/Network      internal/portal/vpn.go: enrollDevice (Enrolment), RequestNetwork
--                       (Requests), DecideNetwork (Decisions), SaveNetworkTarget (Targets),
--                       VPNDevices (Views), VPNControlHandler (Control)
--   Vpn                 internal/vpn/policy.go: the policy and Active (Policy), Key and Destination
--                       (Destination), Validate (Validity), Endpoint, Ruleset, Routes
--   Vpn/Host            internal/vpn/gateway.go: the state of the gateway, its commands and files
--   Vpn/Gateway         internal/vpn/gateway.go: deny and Apply, Init (Start), Tick
--
-- The database is a record of tables, a table a list of rows in the order of their ids. A
-- transaction is a function from the database to a result; `write` keeps the database as it was
-- where the result is an error, as Store.Write rolls back. A handler that reads before its
-- transaction takes the database that it has read (`seen`) beside the one that it writes to, so
-- that another transaction may have come between. The time is an argument, in seconds. The gateway
-- has no transactions: a step of it that fails leaves the world as it is by then, and a theorem on
-- it covers every sequence of failures.
--
-- Loops run over lists, but for two that count: the search for a free address has 253 rounds, as
-- in the code, and the printing of a number n has n + 1, which is enough, since each round divides
-- the number by ten.
--
-- Parameters: the parsing of dates, mail addresses and URLs, the text of a stored time, the hashes
-- of policies, passwords and tokens, the sealing of keys and mails, the SMTP dialogue, the test of
-- authenticator codes, the rendering of markdown, the encoding of a policy as JSON and the ZIP of a
-- pack, which are Go's standard library or third-party packages; the commands ip, wg and nft, the
-- files and the clock of the gateway's machine.
--
-- Not modelled: the rest of internal/portal (sign-in, sessions, passkeys, media, sample data, the
-- pages) and the commands under cmd. Errors of the SQLite driver are not modelled.
pub mod Prelude
pub mod Go
pub mod Vpn
pub mod Portal

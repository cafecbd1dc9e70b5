-- ===== src/Lib.antt =====
-- A model of the hub of reach, which lets an administrator reach machines behind NAT through
-- reverse SSH tunnels, and of the WebSocket carrier of those tunnels.
--
-- The program's parts. A client registers a request at the hub (api.go); an administrator approves
-- it; the client polls until it gets a setup token, and trades the token for a machine: a row in
-- the database (db.go), a port of the hub and a tunnel account on the hub host (provisioner.go).
-- The hub then probes the tunnels, hears the agent's heartbeats, and keeps for each machine the
-- state that the administrator wants and the state that it sees. Where SSH cannot leave a network,
-- the tunnel goes through WebSocket frames (internal/wscarrier/wscarrier.go).
--
-- The files. Carrier/Frame models writeFrame and readFrame; Carrier/Stream the two loops of pump
-- and the Read, Write and Close of wsConn. Security/Slug, Security/Tokens and Security/Secrets
-- model security.go: NormalizeSlug, the Validate functions, HashSecret and VerifySecret. Model has
-- the rows and messages of models.go. Store has the tables of db.go as lists of rows. Provisioner
-- models provisioner.go: Create (CreateMachine), Ports (allocatePortTx), Slugs (retiredSlug),
-- Retire (retireTunnelRow), Accounts (enableTunnelAuth, disableTunnelAuth, removeTunnelSystem),
-- Commands (QueueCommand), Desired (SetDesiredState), Observed (RunHealthCheck, recomputeObserved),
-- Titles (SetProcessTitleConfig), and Repair what db.go does at each start for retired rows
-- (releaseRetiredTunnels, releaseRetiredSlugs). Api models api.go: Requests (handleClientPoll,
-- handleAdminRequestAction, consumeSetupToken, and ExpireOnce of provisioner.go), Register
-- (handleClientRegister, validateClientAuth, validateMetadataLimits), Provision
-- (handleClientProvision, validateApprovedMetadata), Json (validateMetadataValue), Agents
-- (handleAgentHeartbeat, handleAgentUninstall; Agents/Messages has their parts), Updates
-- (updates.go, SetUpdatePolicy), SshConfig (GenerateSSHConfig), Admin (the check of an
-- administrator's token, login, logout, service tokens). Api/History, Api/Agents/Turns and
-- Api/Admin/Logout let handlers run one after another, the last two as relations whose clock does
-- not run back. Events models events.go, with the channels of its subscribers; Events/Channels also
-- handleAdminEvents. RateLimit models ratelimit.go. Agent models parts of cmd/reach-agent: HostKeys
-- (hostkey_algorithms.go), Titles (process_title.go), Binary (decisions of update_binary.go and
-- main.go). MacAgent models parseSSE of cmd/reach-mac-agent. Tests has concrete inputs.
--
-- Conventions. A string is a list of bytes. A timestamp is a number of whole seconds: the code
-- writes all of them in one RFC 3339 form, whose order as texts is their order in time. NULL is
-- none. A statement of SQL is a function on the lists of rows; it is atomic, as the store has one
-- connection, and a handler that reads and writes in two statements is two functions, so that
-- another handler can come between (Api/Requests: answer_poll and take_token take the row that was
-- read). Fractions of a second are left out. Failures of the database and of writing to a
-- connection are not modelled, but for broken constraints. The time, random ids and tokens, which
-- ports listen, what a probe answers, and whether the host made an account are arguments. Argon2,
-- base64 and Sscanf are the record Crypto of Security/Secrets, with the laws that their
-- documentation states; signed tokens are the record Tokens of Api/Admin, whose parser refuses a
-- token from its expiry on and reads one expiry in it at all times; JSON, address and pattern
-- parsers are arguments without laws. ORDER BY keeps the order of the table where its key does not
-- tell rows apart. pendingCommands runs an UPDATE while its rows hold the store's one connection:
-- it is modelled as a call that then waits until its request is given up. Whether authorized_keys
-- can be renamed is an argument, as the code goes on where it cannot. Numbers in JSON are integers.
--
-- Fuel. inbound and read_loop run on fuel: more than the number of bytes that have come is enough
-- (Carrier/Stream/Totality), and so is more than the number of pieces sent
-- (Carrier/Stream/Delivery). The loop of truncateProcessTitleUTF8Bytes runs on as much fuel as the
-- bound that it lowers (Provisioner/Titles/Bounds). The loops of retiredSlug have their 20 rounds,
-- and the one of allocatePortTx as many as the range has ports. Generations and times are
-- unbounded.
--
-- Not modelled: the WebSocket handshake and the network; the creation of tables and the seed of
-- db.go; processes, files and shell commands of the hub host beyond the presence of
-- authorized_keys; JSON decoding; the data of events; listings for the dashboard; the rest of the
-- agent under cmd (installer, services, embedded sshd, tunnels), which mostly calls its system; the
-- dashboard. In pump, the two loops are modelled each on its own, and that the first to end closes
-- the connection of both is left out.
pub mod Base
pub mod Carrier
pub mod Security
pub mod Model
pub mod Provisioner
pub mod Store
pub mod Events
pub mod MacAgent
pub mod Agent
pub mod RateLimit
pub mod Api
pub mod Tests

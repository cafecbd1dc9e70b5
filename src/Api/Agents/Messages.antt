-- ===== src/Api/Agents/Messages.antt =====
-- api.go: the parts of the agents' handlers: normalizeHeartbeat, verifyAgentToken,
-- storeCommandResults, pendingCommands, desiredConfig and desiredPubkeys.
use reach.Api.Updates.{Updates, is_unexpired, agent_update_hint_for}
use reach.Base.Int.{ℤ, pos, same_ℤ}
use reach.Base.Sort.{sort_by}
use reach.Base.{
  ℕ, Bool, true, false, not, ◌&&◌, ◌||◌, List, [], ◌∷◌, ◌++◌, Option, none, some, leb,
  if◌then◌else◌, find, select, update, map, take, Text, codes, same, has_prefix, trim_prefix,
}
use reach.Model.Agent.{
  AgentCommandInfo, AgentCommandResult, AgentHeartbeat, AgentCommandDelivery, DesiredPubkey,
  DesiredAgentConfig, HeartbeatResponse,
}
use reach.Model.Words.{DesiredState, CommandStatus, is_active, is_open}
use reach.Model.{Machine, Hub, Tunnel, Time}
use reach.Security.Secrets.{Crypto, verify_secret}
use reach.Store.{AccessKey, Db, has_id, nullable, publish}

-- What the handlers take from outside: the strict JSON decoder of a heartbeat and the lenient one of
-- its client options, the encoder of a list of texts, the fingerprint of a key, the configuration.
pub record Outside : Type 0 where
  pub crypto : Crypto
  pub decode_heartbeat : Text → Option AgentHeartbeat
  pub options_of : Text → Option (List Text)
  pub marshal_list : List Text → Text
  pub fingerprint : Text → Text
  pub updates : Updates
  pub health_interval : ℕ
  pub offline_after : ℕ

-- A request: its header, its body, the time, and the id that is drawn where a command is queued.
pub record Call : Type 0 where
  pub authorization : Text
  pub raw : Text
  pub now : Time
  pub command_id : Option Text

pub data Refusal : Type 0 where
  auth_failed invalid_json no_machine_id : Refusal

abbrev bearer : Text
bearer = codes "Bearer "

unfoldable pub bearer_of : Text → Option Text
unfolding has_prefix trim_prefix
bearer_of auth = if has_prefix auth bearer then some (trim_prefix auth bearer) else none

-- The older form of a heartbeat has the two states outside of `observed`.
abbrev old_ssh : AgentHeartbeat → AgentHeartbeat
old_ssh hb =
    if same hb.observed.local_ssh.state [] && not (same hb.local_ssh.state [])
    then record hb { observed = record hb.observed { local_ssh = hb.local_ssh } }
    else hb

abbrev old_tunnel : AgentHeartbeat → AgentHeartbeat
old_tunnel hb =
    if same hb.observed.tunnel.state [] && not (same hb.tunnel.state [])
    then record hb {
      observed = record hb.observed { tunnel = record hb.tunnel { transport = hb.transport } };
    }
    else hb

abbrev default_state : AgentHeartbeat → AgentHeartbeat
default_state hb =
    if same hb.observed.agent_state []
    then record hb { observed = record hb.observed { agent_state = codes "running" } }
    else hb

abbrev pub normalize_heartbeat : AgentHeartbeat → AgentHeartbeat
normalize_heartbeat hb = default_state (old_tunnel (old_ssh hb))

abbrev is_retired : DesiredState → Bool
is_retired DesiredState.retired = true
is_retired _ = false

abbrev pub verifies : Crypto → Text → Option Machine → Bool
verifies c token none = false
verifies c token (some m) = elim m.agent_token_hash [
  | none ↦ false
  | some hash ↦ verify_secret c token hash
]

unfoldable pub verify_agent_token : Crypto → Bool → Text → Text → Db → Bool
unfolding same verify_secret
verify_agent_token c allow_retired id token db =
    verifies c token
      (find (λ m. has_id id m && (allow_retired || not (is_retired m.desired_state))) db.machines)

abbrev pub result_status : AgentCommandResult → CommandStatus
result_status res =
    if same res.status (codes "failed") then CommandStatus.failed else CommandStatus.acked

abbrev pub is_command_of : Text → Text → AgentCommandInfo → Bool
is_command_of id machine c = same c.id id && same c.machine_id machine

abbrev pub result_row : Time → AgentCommandResult → AgentCommandInfo → AgentCommandInfo
result_row now res c = record c {
  status = result_status res;
  acked_at = some now;
  last_error = nullable res.message;
}

abbrev status_word : CommandStatus → Text
status_word CommandStatus.pending = codes "pending"
status_word CommandStatus.sent = codes "sent"
status_word CommandStatus.acked = codes "acked"
status_word CommandStatus.failed = codes "failed"

-- The body of the loop.
unfoldable pub store_result : Time → Text → AgentCommandResult → Db → Db
unfolding same
store_result now machine res db =
    if same res.command_id []
    then db
    else publish (codes "agent.command_" ++ status_word (result_status res)) machine (record db {
      commands = update (is_command_of res.command_id machine) (result_row now res) db.commands;
    })

unfoldable pub store_command_results : Time → Text → List AgentCommandResult → Db → Db
unfolding store_result
store_command_results now machine [] db = db
store_command_results now machine (res ∷ more) db =
    store_command_results now machine more (store_result now machine res db)

abbrev pub is_due : Time → Text → AgentCommandInfo → Bool
is_due now machine c =
    same c.machine_id machine && (is_open c.status && is_unexpired now c.expires_at)

abbrev pub created_first : AgentCommandInfo → AgentCommandInfo → Bool
created_first a b = leb a.created_at b.created_at

-- The rows of the query: the first ten.
unfoldable pub due_commands : Time → Text → Db → List AgentCommandInfo
unfolding same is_open sort_by
due_commands now machine db =
    take 10 (sort_by created_first (select (is_due now machine) db.commands))

-- What `pendingCommands` comes to. The store has one connection, which the rows of the query hold
-- until they are closed. The UPDATE that marks the first row as sent waits for it: until the
-- request's context ends, when the UPDATE fails, the rows end, and nobody reads an answer.
pub data Polled : Type 0 where
  ready : List AgentCommandDelivery → Polled
  waits : Polled

abbrev pub polled : List AgentCommandInfo → Polled
polled [] = ready []
polled (c ∷ cs) = waits

-- `pendingCommands`, which writes nothing.
unfoldable pub pending_commands : Time → Text → Db → Polled
unfolding due_commands
pending_commands now machine db = polled (due_commands now machine db)

abbrev not_revoked : AccessKey → Bool
not_revoked k = elim k.revoked_at [ none ↦ true | some _ ↦ false ]

abbrev pubkey : (Text → Text) → AccessKey → DesiredPubkey
pubkey fingerprint k = record {
  id = k.id;
  label = k.label;
  fingerprint = fingerprint k.public_key;
  public_key = k.public_key;
}

unfoldable pub desired_pubkeys : (Text → Text) → Db → List DesiredPubkey
unfolding sort_by
desired_pubkeys fingerprint db =
    map (pubkey fingerprint)
      (sort_by (λ a b. leb a.created_at b.created_at) (select not_revoked db.access_keys))

abbrev without_tunnel : (Text → Text) → Machine → Db → DesiredAgentConfig
without_tunnel fingerprint m db = record {
  tunnel_enabled = is_active m.desired_state;
  hub_host = [];
  hub_ssh_port = 0;
  remote_port = pos 0;
  tunnel_user = [];
  transport_policy = codes "auto";
  admin_keys_generation = 1;
  admin_pubkeys = desired_pubkeys fingerprint db;
  process_title_config = m.process_title_config;
}

abbrev at_hub : Option Hub → DesiredAgentConfig → DesiredAgentConfig
at_hub none cfg = cfg
at_hub (some h) cfg = record cfg { hub_host = h.public_host; hub_ssh_port = h.ssh_port }

-- Only the first tunnel counts.
abbrev desired_config_at : List Tunnel → Db → DesiredAgentConfig → DesiredAgentConfig
desired_config_at [] db cfg = cfg
desired_config_at (t ∷ ts) db cfg =
    at_hub (find (λ h. same h.id t.hub_id) db.hubs)
      (record cfg { remote_port = t.remote_port; tunnel_user = t.unix_user })

unfoldable pub desired_config : (Text → Text) → Machine → List Tunnel → Db → DesiredAgentConfig
unfolding desired_pubkeys is_active same
desired_config fingerprint m tunnels db =
    desired_config_at tunnels db (without_tunnel fingerprint m db)

-- `nullableInt`
abbrev pub nullable_int : ℤ → Option ℤ
nullable_int v = if same_ℤ v (pos 0) then none else some v

abbrev pub response_of :
    Outside
    → Time
    → Machine
    → List Tunnel
    → AgentHeartbeat
    → List AgentCommandDelivery
    → Db
    → HeartbeatResponse
response_of o now m tunnels hb cmds db = record {
  ok = true;
  server_time = now;
  desired_generation = m.desired_generation;
  desired_state = m.desired_state;
  heartbeat = record {
    next_interval_seconds = o.health_interval;
    offline_after_seconds = o.offline_after;
  };
  desired_config = desired_config o.fingerprint m tunnels db;
  commands = cmds;
  update = agent_update_hint_for o.updates hb.agent_version;
}

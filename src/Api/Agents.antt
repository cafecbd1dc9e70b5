-- ===== src/Api/Agents.antt =====
-- api.go: the handlers that agents call: heartbeats, with the results that they report and the
-- commands that wait for them, and uninstalling.
pub mod Messages
pub mod Delivery
pub mod Access
pub mod Ids
pub mod Queue
pub mod Turns
use reach.Api.Agents.Messages.{
  Outside, Refusal, Call, Polled, ready, waits, bearer_of, normalize_heartbeat, verify_agent_token,
  store_command_results, pending_commands, desired_config, nullable_int, response_of,
}
use reach.Api.SshConfig.{ssh_options_signature}
use reach.Api.Updates.{maybe_queue_auto_agent_update}
use reach.Base.Result.{Result, ok, err}
use reach.Base.{
  Bool, true, false, not, ◌&&◌, ◌||◌, List, [], ◌∷◌, ◌++◌, Option, none, some, if◌then◌else◌, find,
  update, Text, codes, same,
}
use reach.Model.Agent.{AgentHeartbeat, HeartbeatResponse}
use reach.Model.Words.{ObservedState, CleanupState, TunnelStatus, is_usable, same_observed}
use reach.Model.{Machine, Tunnel, Time, AgentObservation}
use reach.Provisioner.Desired.{Draws, update_machine, retire_machine_now, remove_machine}
use reach.Provisioner.Observed.{recompute_observed}
use reach.Store.{Db, AgentStatus, get_machine, tunnels_of, nullable, publish}

-- `INSERT … ON CONFLICT(machine_id) DO UPDATE SET` every other column.
unfoldable pub put_agent : AgentObservation → List AgentObservation → List AgentObservation
unfolding same
put_agent new [] = new ∷ []
put_agent new (a ∷ rest) =
    if same a.machine_id new.machine_id then new ∷ rest else a ∷ put_agent new rest

unfoldable pub put_status : AgentStatus → List AgentStatus → List AgentStatus
unfolding same
put_status new [] = new ∷ []
put_status new (a ∷ rest) =
    if same a.machine_id new.machine_id then new ∷ rest else a ∷ put_status new rest

abbrev pub observation : Outside → Time → Text → AgentHeartbeat → AgentObservation
observation o now raw hb = record {
  machine_id = hb.machine_id;
  agent_version = hb.agent_version;
  install_id = hb.install_id;
  applied_generation = hb.applied_generation;
  heartbeat_at = now;
  agent_state = hb.observed.agent_state;
  transport = hb.observed.tunnel.transport;
  transport_state = [];
  local_ssh_state = hb.observed.local_ssh.state;
  local_ssh_error = nullable hb.observed.local_ssh.error;
  tunnel_state = hb.observed.tunnel.state;
  tunnel_pid = nullable_int hb.observed.tunnel.pid;
  tunnel_error = nullable hb.observed.tunnel.error;
  persistence_backend = hb.observed.persistence.backend;
  persistence_quality = hb.observed.persistence.quality;
  persistence_reboot_safe = hb.observed.persistence.reboot_safe;
  authorized_key_fingerprints = o.marshal_list hb.observed.keys.installed_admin_key_fingerprints;
  last_error = nullable hb.last_error;
  raw_json = raw;
}

abbrev pub status_row : Time → Text → AgentHeartbeat → AgentStatus
status_row now raw hb = record {
  machine_id = hb.machine_id;
  agent_version = hb.agent_version;
  transport = hb.observed.tunnel.transport;
  transport_state = [];
  local_ssh_state = hb.observed.local_ssh.state;
  local_ssh_error = nullable hb.observed.local_ssh.error;
  tunnel_state = hb.observed.tunnel.state;
  tunnel_pid = nullable_int hb.observed.tunnel.pid;
  tunnel_error = nullable hb.observed.tunnel.error;
  last_error = nullable hb.last_error;
  raw_json = raw;
  updated_at = now;
}

abbrev raw_of : Option AgentObservation → Text
raw_of none = []
raw_of (some a) = a.raw_json

abbrev tells_connected : AgentHeartbeat → Bool
tells_connected hb =
    same hb.observed.tunnel.state (codes "connected")
    || same hb.observed.tunnel.state (codes "running")

abbrev pub seen_row : Time → Tunnel → Tunnel
seen_row now t = record t { status = TunnelStatus.online; last_seen_at = some now }

-- The statements that store a heartbeat, up to the new computation of the observed state.
unfoldable pub store_heartbeat : Outside → Time → Text → AgentHeartbeat → Db → Db
unfolding put_agent put_status same is_usable
store_heartbeat o now raw hb db = record db {
  agents = put_agent (observation o now raw hb) db.agents;
  statuses = put_status (status_row now raw hb) db.statuses;
  tunnels =
      if tells_connected hb
      then update (λ t. same t.machine_id hb.machine_id && is_usable t.status) (seen_row now)
          db.tunnels
      else db.tunnels;
}

abbrev observed_word : ObservedState → Text
observed_word ObservedState.unknown = codes "unknown"
observed_word ObservedState.online = codes "online"
observed_word ObservedState.degraded = codes "degraded"
observed_word ObservedState.offline = codes "offline"
observed_word ObservedState.gone = codes "gone"

-- The events of a heartbeat: the machine before it and after it, and the options' signatures.
unfoldable pub publish_changes : ObservedState → Machine → Text → Text → Db → Db
unfolding same same_observed
publish_changes old m before after db =
    let db1 =
      if same_observed old m.observed_state
      then db
      else publish (codes "machine." ++ observed_word m.observed_state) m.id
          (publish (codes "machine.observed_changed") m.id db) in
    if same before after then db1 else publish (codes "ssh_config.changed") m.id db1

abbrev pub or_machine : Option Machine → Machine → Machine
or_machine none m = m
or_machine (some m') m = m'

-- The signature of the options that the hub has stored for a machine.
abbrev pub old_signature : Outside → Text → Db → Text
old_signature o id db =
    ssh_options_signature o.options_of (raw_of (find (λ a. same a.machine_id id) db.agents))

-- The first half of the handler: the results, the heartbeat, the observed state.
unfoldable pub hear : Outside → Call → AgentHeartbeat → Db → Db
unfolding store_command_results store_heartbeat recompute_observed
hear o k hb db = recompute_observed o.offline_after k.now hb.machine_id (
    store_heartbeat o k.now k.raw hb
      (store_command_results k.now hb.machine_id hb.command_results db))

-- The second half up to the commands, where `m` is the row before, `m'` the row after, and `before`
-- the signature before.
unfoldable pub follow_up : Outside → Call → Machine → Machine → Text → AgentHeartbeat → Db → Db
unfolding publish_changes ssh_options_signature maybe_queue_auto_agent_update
follow_up o k m m' before hb db =
    maybe_queue_auto_agent_update o.updates k.now k.command_id m' hb
      (publish_changes m.observed_state m' before (ssh_options_signature o.options_of k.raw) db)

-- The answer, or none where the handler waits until its request is given up.
abbrev pub answer_of :
    Outside → Call → Machine → List Tunnel → AgentHeartbeat → Db → Polled → Option HeartbeatResponse
answer_of o k m' tunnels hb db waits = none
answer_of o k m' tunnels hb db (ready cmds) = some (response_of o k.now m' tunnels hb cmds db)

abbrev pub answer_heartbeat :
    Outside → Call → Machine → List Tunnel → AgentHeartbeat → Db → Db × Option HeartbeatResponse
answer_heartbeat o k m' tunnels hb db =
    (db, answer_of o k m' tunnels hb db (pending_commands k.now m'.id db))

-- `handleAgentHeartbeat` behind its checks. The row of the machine is read again after the new
-- computation; it is there, since nothing in between removes a row.
unfoldable pub take_heartbeat :
    Outside → Call → Machine → List Tunnel → AgentHeartbeat → Db → Db × Option HeartbeatResponse
unfolding hear follow_up pending_commands store_command_results ssh_options_signature
take_heartbeat o k m tunnels hb0 db =
    let hb = normalize_heartbeat hb0 in
    let before =
      old_signature o hb.machine_id
        (store_command_results k.now hb.machine_id hb.command_results db) in
    let db1 = hear o k hb db in
    let m' = or_machine (get_machine db1 hb.machine_id) m in
    answer_heartbeat o k m' tunnels hb (follow_up o k m m' before hb db1)

abbrev pub checked :
    Outside
    → Call
    → Machine
    → AgentHeartbeat
    → Text
    → Db
    → Db × Result Refusal (Option HeartbeatResponse)
checked o k m hb token db =
    if verify_agent_token o.crypto true hb.machine_id token db
    then (let out = take_heartbeat o k m (tunnels_of db m.id) hb db in (out.0, ok out.1))
    else (db, err Refusal.auth_failed)

abbrev pub for_machine :
    Outside → Call → AgentHeartbeat → Text → Db → Db × Result Refusal (Option HeartbeatResponse)
for_machine o k hb token db = elim (get_machine db hb.machine_id) [
  | none ↦ (db, err Refusal.auth_failed)
  | some m ↦ checked o k m hb token db
]

-- `authAgentHeartbeat`
unfoldable pub auth_agent_heartbeat : Outside → Call → Result Refusal (Text × AgentHeartbeat)
unfolding bearer_of same
auth_agent_heartbeat o k = elim (bearer_of k.authorization) [
  | none ↦ err Refusal.auth_failed
  | some token ↦ elim (o.decode_heartbeat k.raw) [
    | none ↦ err Refusal.invalid_json
    | some hb ↦ if same hb.machine_id [] then err Refusal.no_machine_id else ok (token, hb)
  ]
]

-- `handleAgentHeartbeat`
unfoldable pub agent_heartbeat :
    Outside → Call → Db → Db × Result Refusal (Option HeartbeatResponse)
unfolding auth_agent_heartbeat take_heartbeat verify_agent_token same
agent_heartbeat o k db = elim (auth_agent_heartbeat o k) [
  | err e ↦ (db, err e)
  | ok (token, hb) ↦ for_machine o k hb token db
]

-- What an agent sends when it uninstalls itself.
pub record Uninstall : Type 0 where
  pub authorization : Text
  pub machine_id : Text

abbrev complete_row : Machine → Machine
complete_row m = record m { cleanup_state = some CleanupState.complete }

-- The two branches behind the check of the token; an error of the first call is dropped.
unfoldable pub end_machine : Draws → Bool → Text → Db → Db
end_machine d true id db =
    let db1 = (retire_machine_now d id (codes "agent-uninstall") db).0 in
    publish (codes "machine.retired") id (update_machine id complete_row db1)
end_machine d false id db =
    publish (codes "machine.retiring") id (remove_machine d id (codes "agent-uninstall") db).0

-- `handleAgentUninstall`, whose flag tells completion from intent.
unfoldable pub agent_uninstall :
    Outside → Draws → Bool → Uninstall → Db → Db × Result Refusal (Unit {0})
unfolding bearer_of verify_agent_token end_machine same
agent_uninstall o d complete req db = elim (bearer_of req.authorization) [
  | none ↦ (db, err Refusal.auth_failed)
  | some token ↦
      if verify_agent_token o.crypto true req.machine_id token db
      then (
        publish (codes "ssh_config.changed") req.machine_id
            (end_machine d complete req.machine_id db),
        ok tt,
      )
      else (db, err Refusal.auth_failed)
]

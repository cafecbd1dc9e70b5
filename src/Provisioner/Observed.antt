-- ===== src/Provisioner/Observed.antt =====
-- provisioner.go: `recomputeObserved`, which gives a machine the state that the agent's heartbeats
-- and the hub's probes show, and `RunHealthCheck`, which probes the tunnels.
pub mod States
pub mod Probes
use reach.Base.{
  ℕ, ◌+◌, ◌-◌, ◌*◌, Bool, true, false, not, ◌&&◌, ◌||◌, List, [], ◌∷◌, ◌++◌, Option, none, some,
  ltb, leb, if◌then◌else◌, find, any, select, update, Text, codes, same,
}
use reach.Base.Int.{ℤ}
use reach.Model.Words.{DesiredState, ObservedState, MachineStatus, TunnelStatus, is_usable}
use reach.Model.{Machine, Tunnel, AgentObservation, HubObservation, Time}
use reach.Store.{Db, has_id, coalesce, nullable}

-- What the three queries of `recomputeObserved` see: the last heartbeat with the agent's words on its
-- tunnel and its local SSH, and the latest probe.
pub record Sight : Type 0 where
  pub heartbeat : Option Time
  pub agent_tunnel : Text
  pub local_ssh : Text
  pub probe : Text

-- The decision, from what is seen. `OfflineAfter` is in seconds; no time has passed since a heartbeat
-- that lies ahead of the clock.
unfoldable pub observe : ℕ → Time → Sight → ObservedState
observe offline_after now s =
    let reachable = same s.probe (codes "reachable") in
    let unreachable = same s.probe (codes "unreachable") in
    let connected = same s.agent_tunnel (codes "connected") in
    elim s.heartbeat [
      | none ↦ if reachable then ObservedState.degraded else ObservedState.unknown
      | some last ↦
          let stale = ltb (offline_after * 2) (now - last) in
          if stale && reachable
          then ObservedState.degraded
          else if stale && unreachable
          then ObservedState.gone
          else if stale
          then ObservedState.offline
          else if connected && reachable && same s.local_ssh (codes "healthy")
          then ObservedState.online
          else if connected || reachable
          then ObservedState.degraded
          else ObservedState.offline
    ]

-- The status that goes with it: the desired state where that is no longer active.
unfoldable pub effective : DesiredState → ObservedState → MachineStatus
effective DesiredState.active o = MachineStatus.observed o
effective DesiredState.disabled o = MachineStatus.disabled
effective DesiredState.retiring o = MachineStatus.retiring
effective DesiredState.retired o = MachineStatus.retired

-- `ORDER BY last_probe_at DESC LIMIT 1`.
abbrev later_probe : HubObservation → Option HubObservation → Option HubObservation
later_probe p none = some p
later_probe p (some q) = some (if ltb p.last_probe_at q.last_probe_at then q else p)

unfoldable pub latest_probe : Text → List HubObservation → Option HubObservation
latest_probe id [] = none
latest_probe id (p ∷ ps) =
    if same p.machine_id id then later_probe p (latest_probe id ps) else latest_probe id ps

abbrev pub probe_word : Option HubObservation → Text
probe_word none = []
probe_word (some p) = p.probe_state

abbrev pub sight_of : Option AgentObservation → Text → Sight
sight_of none probe = record { heartbeat = none; agent_tunnel = []; local_ssh = []; probe = probe }
sight_of (some a) probe = record {
  heartbeat = some a.heartbeat_at;
  agent_tunnel = a.tunnel_state;
  local_ssh = a.local_ssh_state;
  probe = probe;
}

unfoldable pub sight : Db → Text → Sight
unfolding latest_probe
sight db id =
    sight_of (find (λ a. same a.machine_id id) db.agents) (probe_word (latest_probe id db.probes))

-- The row's new state. The desired state is that of the row, which the code has just read.
abbrev pub observed_row : ObservedState → Time → Machine → Machine
observed_row o now m = record m {
  observed_state = o;
  status = effective m.desired_state o;
  updated_at = some now;
}

unfoldable pub recompute_observed : ℕ → Time → Text → Db → Db
unfolding sight observe
recompute_observed offline_after now id db = record db {
  machines =
      update (has_id id) (observed_row (observe offline_after now (sight db id)) now) db.machines;
}

-- `INSERT INTO hub_observations … ON CONFLICT(tunnel_id) DO UPDATE`: a failed probe leaves the time
-- of the last success.
abbrev pub merge_probe : HubObservation → HubObservation → HubObservation
merge_probe new old = record new {
  machine_id = old.machine_id;
  last_success_at = coalesce new.last_success_at old.last_success_at;
}

unfoldable pub put_probe : HubObservation → List HubObservation → List HubObservation
put_probe new [] = new ∷ []
put_probe new (p ∷ ps) =
    if same p.tunnel_id new.tunnel_id then merge_probe new p ∷ ps else p ∷ put_probe new ps

-- The row for a probe of a tunnel; the detail of a failed one is its error.
abbrev pub probe_of : Tunnel → Bool → Text → Time → HubObservation
probe_of t ok detail now = record {
  tunnel_id = t.id;
  machine_id = t.machine_id;
  probe_state = if ok then codes "reachable" else codes "unreachable";
  last_probe_at = now;
  last_success_at = if ok then some now else none;
  probe_error = nullable (if ok then [] else detail);
}

abbrev pub probed_row : Bool → Time → Tunnel → Tunnel
probed_row true now t = record t { status = TunnelStatus.online; last_seen_at = some now }
probed_row false now t = record t { status = TunnelStatus.offline }

-- The body of the loop; `checkTunnelPort` has given ok and a detail.
unfoldable pub check_one : ℕ → Time → Tunnel → Bool × Text → Db → Db
unfolding put_probe recompute_observed
check_one offline_after now t (ok, detail) db =
    let db1 = record db {
      tunnels = update (λ u. same u.id t.id && is_usable u.status) (probed_row ok now) db.tunnels;
      probes = put_probe (probe_of t ok detail now) db.probes;
    } in
    recompute_observed offline_after now t.machine_id db1

unfoldable pub check_all : ℕ → Time → (ℤ → Bool × Text) → List Tunnel → Db → Db
unfolding check_one
check_all offline_after now check [] db = db
check_all offline_after now check (t ∷ ts) db =
    check_all offline_after now check ts (check_one offline_after now t (check t.remote_port) db)

-- `RunHealthCheck`: the tunnels are read once, before the first is probed. One time stands for the
-- times of the round.
unfoldable pub run_health_check : ℕ → Time → (ℤ → Bool × Text) → Db → Db
unfolding check_all
run_health_check offline_after now check db =
    check_all offline_after now check (select (λ t. is_usable t.status) db.tunnels) db

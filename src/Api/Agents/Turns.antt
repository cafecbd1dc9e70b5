-- ===== src/Api/Agents/Turns.antt =====
-- api.go, updates.go, provisioner.go: the calls that touch the queue of commands, one after another.
use reach.Api.Agents.Ids.{ids, distinct_texts, queue_command_unique}
use reach.Api.Agents.Messages.{
  Outside, Call, normalize_heartbeat, bearer_of, verify_agent_token, store_command_results,
}
use reach.Api.Agents.Queue.{
  IsCalm, IsCalm-later, IsCalm-commands, store_command_results-IsCalm, queue_agent_update-IsCalm,
  queue_command-count,
}
use reach.Api.Agents.{
  Uninstall, publish_changes, store_heartbeat, hear, follow_up, or_machine, old_signature,
  take_heartbeat, checked, for_machine, auth_agent_heartbeat, agent_heartbeat, end_machine,
  agent_uninstall,
}
use reach.Api.SshConfig.{ssh_options_signature}
use reach.Api.Updates.{
  Updates, is_open_update, queue_agent_update, maybe_queue_auto_agent_update, skips_auto_update,
  admin_update_agent, UpdateError, admin_result,
}
use reach.Base.Result.{Result, ok, err, Result-cases}
use reach.Base.{
  ◌≤◌, ◌≡◌, refl, inl, inr, Bool, true, false, List, Option, some, arith, Text, codes, Bool-cases,
  Option-cases,
}
use reach.Base.Count.{count}
use reach.Model.Agent.{AgentCommandInfo, AgentHeartbeat}
use reach.Model.Words.{DesiredState, ObservedState}
use reach.Model.{Machine, Tunnel, Time}
use reach.Provisioner.Desired.Orders.{Lasts, set_desired_state_commands}
use reach.Provisioner.Desired.{Draws, set_desired_state, retire_machine_now, remove_machine}
use reach.Provisioner.Observed.{recompute_observed}
use reach.Store.{Db, get_machine, tunnels_of}

auto_update-IsCalm :
    (u : Updates) (now : Time) (new_id : Option Text) (m : Machine) (hb : AgentHeartbeat) (db : Db)
    (id : Text)
    → IsCalm id now db
    → IsCalm id now (maybe_queue_auto_agent_update u now new_id m hb db)
unfolding maybe_queue_auto_agent_update
auto_update-IsCalm u now new_id m hb db id h = elim (Bool-cases (skips_auto_update u now m hb db)) [
  | inl e ↦ rw (e, maybe_queue_auto_agent_update) h
  | inr e ↦
      rw (e, maybe_queue_auto_agent_update)
        (queue_agent_update-IsCalm u (codes "system") (codes "auto_policy") now new_id m db id h)
]

publish_changes_commands :
    (old : ObservedState) (m : Machine) (before after : Text) (db : Db)
    → (publish_changes old m before after db).commands ≡ db.commands
unfolding publish_changes
publish_changes_commands old m before after db = ground arith

hear-IsCalm :
    (o : Outside) (k : Call) (hb : AgentHeartbeat) (db : Db) (id : Text)
    → IsCalm id k.now db
    → IsCalm id k.now (hear o k hb db)
unfolding hear recompute_observed store_heartbeat
hear-IsCalm o k hb db id h =
    IsCalm-commands id k.now (store_command_results k.now hb.machine_id hb.command_results db)
      (hear o k hb db) refl
      (store_command_results-IsCalm id hb.machine_id k.now k.now hb.command_results db h)

follow_up-IsCalm :
    (o : Outside) (k : Call) (m m' : Machine) (before : Text) (hb : AgentHeartbeat) (db : Db)
    (id : Text)
    → IsCalm id k.now db
    → IsCalm id k.now (follow_up o k m m' before hb db)
unfolding follow_up
follow_up-IsCalm o k m m' before hb db id h =
    let after = ssh_options_signature o.options_of k.raw in
    let told = publish_changes m.observed_state m' before after db in
    auto_update-IsCalm o.updates k.now k.command_id m' hb told id (
      IsCalm-commands id k.now db told
        (publish_changes_commands m.observed_state m' before after db) h)

take_heartbeat-IsCalm :
    (o : Outside) (k : Call) (m : Machine) (ts : List Tunnel) (hb : AgentHeartbeat) (db : Db)
    (id : Text)
    → IsCalm id k.now db
    → IsCalm id k.now (take_heartbeat o k m ts hb db).0
unfolding take_heartbeat
take_heartbeat-IsCalm o k m ts hb0 db id h =
    let hb = normalize_heartbeat hb0 in
    let m' = or_machine (get_machine (hear o k hb db) hb.machine_id) m in
    let before =
      old_signature o hb.machine_id
        (store_command_results k.now hb.machine_id hb.command_results db) in
    follow_up-IsCalm o k m m' before hb (hear o k hb db) id (hear-IsCalm o k hb db id h)

agent_heartbeat-IsCalm :
    (o : Outside) (k : Call) (db : Db) (id : Text)
    → IsCalm id k.now db
    → IsCalm id k.now (agent_heartbeat o k db).0
unfolding agent_heartbeat
agent_heartbeat-IsCalm o k db id h = elim (Result-cases (auth_agent_heartbeat o k)) [
  | inr (e, a) ↦ rw (a, agent_heartbeat) h
  | inl ((token, hb), a) ↦ elim (Option-cases (get_machine db hb.machine_id)) [
    | inl f ↦ rw (a, f, agent_heartbeat, for_machine) h
    | inr (m, f) ↦ elim (Bool-cases (verify_agent_token o.crypto true hb.machine_id token db)) [
      | inr v ↦ rw (a, f, v, agent_heartbeat, for_machine, checked) h
      | inl v ↦
          rw (a, f, v, agent_heartbeat, for_machine, checked)
            (take_heartbeat-IsCalm o k m (tunnels_of db m.id) hb db id h)
    ]
  ]
]

admin_result-IsCalm :
    (id : Text) (t : Time) (out : Db × Result UpdateError (Unit {0}))
    → IsCalm id t out.0
    → IsCalm id t (admin_result out).0
admin_result-IsCalm id t (db, ok x) h = h
admin_result-IsCalm id t (db, err e) h = h

admin_update_agent-IsCalm :
    (u : Updates) (actor : Text) (now : Time) (new_id : Option Text) (key : Text) (db : Db)
    (id : Text)
    → IsCalm id now db
    → IsCalm id now (admin_update_agent u actor now new_id key db).0
unfolding admin_update_agent
admin_update_agent-IsCalm u actor now new_id key db id h =
    elim (Option-cases (get_machine db key)) [
      | inl f ↦ rw (f, admin_update_agent) h
      | inr (m, f) ↦
          rw (f, admin_update_agent)
            (admin_result-IsCalm id now
              (queue_agent_update u actor (codes "manual") now new_id m db)
              (queue_agent_update-IsCalm u actor (codes "manual") now new_id m db id h))
    ]

-- IsCalm as a property of the commands alone.
abbrev Calm : Text → Time → List AgentCommandInfo → Type 0
Calm id t cs = (distinct_texts (ids cs) ≡ true) × (count (is_open_update t id) cs ≤ 1)

Calm-Lasts : (id : Text) (t : Time) → Lasts (Calm id t)
Calm-Lasts id t new_id now machine gen kind payload ttl db no_update (u, n) = (
  queue_command_unique new_id now machine gen kind payload ttl db u,
  ground (arith, no_update, n, queue_command-count new_id now machine gen kind payload ttl db id t),
)

set_desired_state-IsCalm :
    (d : Draws) (key : Text) (desired : Option DesiredState) (actor : Text) (db : Db) (id : Text)
    (t : Time)
    → IsCalm id t db
    → IsCalm id t (set_desired_state d key desired actor db).0
set_desired_state-IsCalm d key desired actor db id t h =
    let (u, n) =
      set_desired_state_commands (Calm id t) (Calm-Lasts id t) d key desired actor db
        (h.unique, h.one) in
    record { unique = u; one = n }

-- The calls that reach the commands, with the time of each.
pub data Turn : Time → Db → Db → Type 0 where
  beats : (o : Outside) (k : Call) (db : Db) → Turn k.now db (agent_heartbeat o k db).0
  orders :
      (u : Updates) (actor : Text) (now : Time) (new_id : Option Text) (key : Text) (db : Db)
      → Turn now db (admin_update_agent u actor now new_id key db).0
  desires :
      (d : Draws) (key : Text) (desired : Option DesiredState) (actor : Text) (db : Db)
      → Turn d.now db (set_desired_state d key desired actor db).0
  uninstalls :
      (o : Outside) (d : Draws) (complete : Bool) (req : Uninstall) (db : Db)
      → Turn d.now db (agent_uninstall o d complete req db).0
  -- A call that leaves the commands alone, at any time.
  others : (now : Time) (db db' : Db) → db'.commands ≡ db.commands → Turn now db db'

-- Turns one after another, from a time on to the time of the last; the clock does not run back.
pub data Turns : Time → Db → Time → Db → Type 0 where
  none_left : (t : Time) (db : Db) → Turns t db t db
  turn :
      (t now end : Time) (db db1 db2 : Db)
      → t ≤ now
      → Turn now db db1
      → Turns now db1 end db2
      → Turns t db end db2

end_machine-IsCalm :
    (d : Draws) (complete : Bool) (key : Text) (db : Db) (id : Text) (t : Time)
    → IsCalm id t db
    → IsCalm id t (end_machine d complete key db)
unfolding end_machine
end_machine-IsCalm d true key db id t h =
    IsCalm-commands id t (retire_machine_now d key (codes "agent-uninstall") db).0 _ refl (
      set_desired_state-IsCalm d key (some DesiredState.retired) (codes "agent-uninstall") db id t
        h)
end_machine-IsCalm d false key db id t h =
    IsCalm-commands id t (remove_machine d key (codes "agent-uninstall") db).0 _ refl (
      set_desired_state-IsCalm d key (some DesiredState.retiring) (codes "agent-uninstall") db id t
        h)

agent_uninstall-IsCalm :
    (o : Outside) (d : Draws) (complete : Bool) (req : Uninstall) (db : Db) (id : Text) (t : Time)
    → IsCalm id t db
    → IsCalm id t (agent_uninstall o d complete req db).0
unfolding agent_uninstall
agent_uninstall-IsCalm o d complete req db id t h =
    elim (Option-cases (bearer_of req.authorization)) [
      | inl a ↦ rw (a, agent_uninstall) h
      | inr (token, a) ↦
          elim (Bool-cases (verify_agent_token o.crypto true req.machine_id token db)) [
            | inr v ↦ rw (a, v, agent_uninstall) h
            | inl v ↦
                rw (a, v, agent_uninstall)
                  (IsCalm-commands id t (end_machine d complete req.machine_id db) _ refl
                    (end_machine-IsCalm d complete req.machine_id db id t h))
          ]
    ]

Turn-IsCalm :
    (id : Text) (now : Time) (db db' : Db) → Turn now db db' → IsCalm id now db → IsCalm id now db'
Turn-IsCalm id now db db' (beats o k _) h = agent_heartbeat-IsCalm o k db id h
Turn-IsCalm id now db db' (orders u actor _ new_id key _) h =
    admin_update_agent-IsCalm u actor now new_id key db id h
Turn-IsCalm id now db db' (desires d key desired actor _) h =
    set_desired_state-IsCalm d key desired actor db id d.now h
Turn-IsCalm id now db db' (uninstalls o d complete req _) h =
    agent_uninstall-IsCalm o d complete req db id d.now h
Turn-IsCalm id now db db' (others _ _ _ e) h = IsCalm-commands id now db db' e h

-- Through any calls that follow one another in time (heartbeats with the results that they report,
-- orders of administrators to update an agent, changes of the desired state, uninstalling, calls that
-- leave the commands alone), the ids of the commands stay distinct, and at the time of the last call
-- no more than one unexpired command to update the machine is pending or sent. This is where both
-- are so at the start.
pub Turns-IsCalm :
    (id : Text) (t end : Time) (db db' : Db)
    → Turns t db end db'
    → IsCalm id t db
    → IsCalm id end db'
Turns-IsCalm id t end db db' (none_left _ _) h = h
Turns-IsCalm id t end db db' (turn _ now _ _ db1 _ b step rest) h =
    Turns-IsCalm id now end db1 db' rest
      (Turn-IsCalm id now db db1 step (IsCalm-later id t now db b h))

-- ===== src/Api/Agents/Access.antt =====
-- api.go: what an agent's call may change, and what it leaves alone.
use reach.Api.Agents.Messages.{
  Outside, Refusal, Call, bearer_of, normalize_heartbeat, verify_agent_token, store_result,
  store_command_results, verifies,
}
use reach.Api.Agents.{
  Uninstall, seen_row, store_heartbeat, publish_changes, hear, follow_up, or_machine,
  take_heartbeat, for_machine, auth_agent_heartbeat, agent_heartbeat, end_machine, agent_uninstall,
}
use reach.Api.Updates.{
  Updates, queue_agent_update, maybe_queue_auto_agent_update, latest_agent_update,
}
use reach.Api.SshConfig.{ssh_options_signature}
use reach.Base.Result.{Result, ok, err, Result-cases}
use reach.Base.{
  ◌≡◌, refl, ap, ◌∙◌, inl, inr, Bool, true, false, ◌&&◌, List, [], ◌∷◌, Option, none, some, arith,
  Bool-cases, Option-cases, select, update, Text, codes, same, any, find,
}
use reach.Model.Agent.{AgentHeartbeat, AgentCommandResult}
use reach.Model.Words.{DesiredState, ObservedState, is_usable}
use reach.Model.{Machine, Tunnel, Time}
use reach.Provisioner.Commands.{queue_command}
use reach.Provisioner.Observed.Probes.{idle}
use reach.Provisioner.Observed.{recompute_observed}
use reach.Provisioner.Desired.Access.{IsClosed, set_desired_state-IsClosed}
use reach.Provisioner.Desired.{Draws}
use reach.Security.Secrets.{Crypto, verify_secret}
use reach.Store.{Db, get_machine, tunnels_of}

abbrev pub failed : {A : Type 0} → Result Refusal A → Bool
failed (ok a) = false
failed (err e) = true

-- The bearer token of a header passes a test.
abbrev pub bears : (Text → Bool) → Text → Bool
bears good auth = elim (bearer_of auth) [ none ↦ false | some token ↦ good token ]

-- A row with this id holds a hash that accepts the token.
abbrev pub accepts : Crypto → Text → Text → Machine → Bool
accepts c id token m =
    same m.id id && elim m.agent_token_hash [ none ↦ false | some h ↦ verify_secret c token h ]

-- The body names a machine whose stored hash accepts the token.
abbrev pub vouched : Outside → Text → Db → Text → Bool
vouched o raw db token = elim (o.decode_heartbeat raw) [
  | none ↦ false
  | some hb ↦ any (accepts o.crypto hb.machine_id token) db.machines
]

-- What a call of an agent has come to: where it is refused nothing has changed, and where it is
-- accepted its header carries a token that is good.
abbrev pub Guarded : {A : Type 0} → Text → (Text → Bool) → Db → Db × Result Refusal A → Type 0
Guarded auth good db (db', err e) = db' ≡ db
Guarded auth good db (db', ok a) = bears good auth ≡ true

verifies-accepts :
    (c : Crypto) (id token : Text) (p : Machine → Bool)
    → ((m : Machine) → p m ≡ true → same m.id id ≡ true)
    → (ms : List Machine) → verifies c token (find p ms) ≡ true
    → any (accepts c id token) ms ≡ true
verifies-accepts c id token p named [] h = h
verifies-accepts c id token p named (m ∷ ms) h = elim (Bool-cases (p m)) [
  | inr e ↦ ground (arith, verifies-accepts c id token p named ms (ground (arith, h, e)))
  | inl e ↦ elim (Option-cases m.agent_token_hash) [
    | inl none_stored ↦ absurd (ground (arith, h, e, none_stored))
    | inr (hash, stored) ↦ ground (arith, h, e, stored, named m e)
  ]
]

verify_agent_token-accepts :
    (c : Crypto) (id token : Text) (db : Db)
    → verify_agent_token c true id token db ≡ true
    → any (accepts c id token) db.machines ≡ true
unfolding verify_agent_token
verify_agent_token-accepts c id token db h =
    verifies-accepts c id token _ (λ m e. ground (arith, e)) db.machines h

Guarded-of :
    {A : Type 0} (auth : Text) (good : Text → Bool) (db : Db) (out : Db × Result Refusal A)
    → (failed out.1 ≡ true → out.0 ≡ db)
    → (failed out.1 ≡ false → bears good auth ≡ true)
    → Guarded auth good db out
Guarded-of auth good db (db', err e) refused accepted = refused refl
Guarded-of auth good db (db', ok a) refused accepted = accepted refl

for_machine_refused :
    (o : Outside) (k : Call) (hb : AgentHeartbeat) (token : Text) (db : Db)
    → failed (for_machine o k hb token db).1 ≡ true
    → (for_machine o k hb token db).0 ≡ db
for_machine_refused o k hb token db h = elim (Option-cases (get_machine db hb.machine_id)) [
  | inl f ↦ ground (arith, f)
  | inr (m, f) ↦ ground (arith, f, h)
]

for_machine_accepted :
    (o : Outside) (k : Call) (hb : AgentHeartbeat) (token : Text) (db : Db)
    → failed (for_machine o k hb token db).1 ≡ false
    → verify_agent_token o.crypto true hb.machine_id token db ≡ true
for_machine_accepted o k hb token db h = elim (Option-cases (get_machine db hb.machine_id)) [
  | inl f ↦ absurd (ground (arith, f, h))
  | inr (m, f) ↦ ground (arith, f, h)
]

auth-Guarded :
    (o : Outside) (k : Call) (hb : AgentHeartbeat) (token : Text) (db : Db)
    → auth_agent_heartbeat o k ≡ ok (token, hb)
    → (bearer_of k.authorization ≡ some token) × (o.decode_heartbeat k.raw ≡ some hb)
unfolding auth_agent_heartbeat
auth-Guarded o k hb token db h = elim (Option-cases (bearer_of k.authorization)) [
  | inl a ↦ absurd (ground (arith, a, h))
  | inr (t, a) ↦ elim (Option-cases (o.decode_heartbeat k.raw)) [
    | inl b ↦ absurd (ground (arith, a, b, h))
    | inr (x, b) ↦ (ground (arith, a, b, h), ground (arith, a, b, h))
  ]
]

heartbeat_refused :
    (o : Outside) (k : Call) (db : Db)
    → failed (agent_heartbeat o k db).1 ≡ true
    → (agent_heartbeat o k db).0 ≡ db
unfolding agent_heartbeat
heartbeat_refused o k db h = elim (Result-cases (auth_agent_heartbeat o k)) [
  | inr (e, a) ↦ ground (arith, a)
  | inl ((token, hb), a) ↦ ground (arith, a, h, for_machine_refused o k hb token db)
]

heartbeat_accepted :
    (o : Outside) (k : Call) (db : Db)
    → failed (agent_heartbeat o k db).1 ≡ false
    → bears (vouched o k.raw db) k.authorization ≡ true
unfolding agent_heartbeat
heartbeat_accepted o k db h = elim (Result-cases (auth_agent_heartbeat o k)) [
  | inr (e, a) ↦ absurd (ground (arith, a, h))
  | inl ((token, hb), a) ↦
      let (b, d) = auth-Guarded o k hb token db a in
      let verified = for_machine_accepted o k hb token db (ground (arith, a, h)) in
      ground (arith, b, d, verify_agent_token-accepts o.crypto hb.machine_id token db verified)
]

-- A heartbeat that is refused changes nothing in the database; one that is accepted has a bearer
-- token, and the machine that its body names has a row whose agent token hash is not NULL and accepts
-- this token.
pub agent_heartbeat-Guarded :
    (o : Outside) (k : Call) (db : Db)
    → Guarded k.authorization (vouched o k.raw db) db (agent_heartbeat o k db)
unfolding agent_heartbeat
agent_heartbeat-Guarded o k db =
    Guarded-of k.authorization (vouched o k.raw db) db (agent_heartbeat o k db)
      (heartbeat_refused o k db) (heartbeat_accepted o k db)

store_command_results_tunnels :
    (now : Time) (machine : Text) (rs : List AgentCommandResult) (db : Db)
    → (store_command_results now machine rs db).tunnels ≡ db.tunnels
unfolding store_command_results store_result
store_command_results_tunnels now machine [] db = refl
store_command_results_tunnels now machine (r ∷ rs) db =
    store_command_results_tunnels now machine rs (store_result now machine r db) ∙ ground arith

queue_agent_update_tunnels :
    (u : Updates) (actor reason : Text) (now : Time) (new_id : Option Text) (m : Machine) (db : Db)
    → (queue_agent_update u actor reason now new_id m db).0.tunnels ≡ db.tunnels
unfolding queue_agent_update queue_command
queue_agent_update_tunnels u actor reason now new_id m db =
    elim (Option-cases (latest_agent_update u)) [
      | inl e ↦ ground (arith, e)
      | inr (rel, e) ↦ elim (Option-cases new_id) [
        | inl i ↦ ground (arith, e, i)
        | inr (x, i) ↦ ground (arith, e, i)
      ]
    ]

auto_update_tunnels :
    (u : Updates) (now : Time) (new_id : Option Text) (m : Machine) (hb : AgentHeartbeat) (db : Db)
    → (maybe_queue_auto_agent_update u now new_id m hb db).tunnels ≡ db.tunnels
unfolding maybe_queue_auto_agent_update
auto_update_tunnels u now new_id m hb db = grind (arith, queue_agent_update_tunnels)

publish_changes_tunnels :
    (old : ObservedState) (m : Machine) (before after : Text) (db : Db)
    → (publish_changes old m before after db).tunnels ≡ db.tunnels
unfolding publish_changes
publish_changes_tunnels old m before after db = ground arith

seen_usable : (now : Time) (t : Tunnel) → is_usable (seen_row now t).status ≡ true
unfolding is_usable
seen_usable now t = refl

idle-seen :
    (id : Text) (now : Time) (ts : List Tunnel)
    → idle (update (λ t. same t.machine_id id && is_usable t.status) (seen_row now) ts) ≡ idle ts
idle-seen id now [] = refl
idle-seen id now (t ∷ ts) = ground (arith, idle-seen id now ts, seen_usable now t)

store_heartbeat-idle :
    (o : Outside) (now : Time) (raw : Text) (hb : AgentHeartbeat) (db : Db)
    → idle (store_heartbeat o now raw hb db).tunnels ≡ idle db.tunnels
unfolding store_heartbeat
store_heartbeat-idle o now raw hb db = ground (arith, idle-seen hb.machine_id now db.tunnels)

hear-idle :
    (o : Outside) (k : Call) (hb : AgentHeartbeat) (db : Db)
    → idle (hear o k hb db).tunnels ≡ idle db.tunnels
unfolding hear recompute_observed
hear-idle o k hb db =
    let db1 = store_command_results k.now hb.machine_id hb.command_results db in
    store_heartbeat-idle o k.now k.raw hb db1
    ∙ ap idle (store_command_results_tunnels k.now hb.machine_id hb.command_results db)

follow_up_tunnels :
    (o : Outside) (k : Call) (m m' : Machine) (before : Text) (hb : AgentHeartbeat) (db : Db)
    → (follow_up o k m m' before hb db).tunnels ≡ db.tunnels
unfolding follow_up
follow_up_tunnels o k m m' before hb db =
    let after = ssh_options_signature o.options_of k.raw in
    auto_update_tunnels o.updates k.now k.command_id m' hb
      (publish_changes m.observed_state m' before after db)
    ∙ publish_changes_tunnels m.observed_state m' before after db

take_heartbeat-idle :
    (o : Outside) (k : Call) (m : Machine) (ts : List Tunnel) (hb : AgentHeartbeat) (db : Db)
    → idle (take_heartbeat o k m ts hb db).0.tunnels ≡ idle db.tunnels
unfolding take_heartbeat
take_heartbeat-idle o k m ts hb0 db =
    let hb = normalize_heartbeat hb0 in
    let m' = or_machine (get_machine (hear o k hb db) hb.machine_id) m in
    ap idle (follow_up_tunnels o k m m' _ hb (hear o k hb db)) ∙ hear-idle o k hb db

-- No heartbeat changes a tunnel that is disabled, retired or failed, whatever the agent says of it:
-- these rows are the same before and after.
pub agent_heartbeat-idle :
    (o : Outside) (k : Call) (db : Db) → idle (agent_heartbeat o k db).0.tunnels ≡ idle db.tunnels
unfolding agent_heartbeat
agent_heartbeat-idle o k db = elim (Result-cases (auth_agent_heartbeat o k)) [
  | inr (e, a) ↦ ground (arith, a)
  | inl ((token, hb), a) ↦ elim (Option-cases (get_machine db hb.machine_id)) [
    | inl f ↦ ground (arith, a, f)
    | inr (m, f) ↦ ground (
      arith,
      a,
      f,
      take_heartbeat-idle o k m (select (λ t. same t.machine_id m.id) db.tunnels) hb db,
    )
  ]
]

-- Where an agent's intent to uninstall is accepted, every tunnel of its machine has the status
-- disabled afterwards, and the hub account that carries one of them is without an `authorized_keys`
-- file exactly where it was so before or where `ValidateUnixUser` accepts its name and the file can
-- be renamed.
pub agent_uninstall-IsClosed :
    (o : Outside) (d : Draws) (req : Uninstall) (m : Machine) (db : Db)
    → get_machine db req.machine_id ≡ some m
    → failed (agent_uninstall o d false req db).1 ≡ false
    → IsClosed d.renames db.accounts m.id (tunnels_of db m.id) (agent_uninstall o d false req db).0
unfolding agent_uninstall end_machine
agent_uninstall-IsClosed o d req m db e h =
    let closed =
      set_desired_state-IsClosed d req.machine_id (codes "agent-uninstall") DesiredState.retiring m
        db refl e in
    elim (Option-cases (bearer_of req.authorization)) [
      | inl a ↦ absurd (ground (arith, a, h))
      | inr (token, a) ↦
          elim (Bool-cases (verify_agent_token o.crypto true req.machine_id token db)) [
            | inr v ↦ absurd (ground (arith, a, v, h))
            | inl v ↦
                rw (a, v, agent_uninstall)
                  (record { disabled = closed.disabled; locked = closed.locked })
          ]
    ]

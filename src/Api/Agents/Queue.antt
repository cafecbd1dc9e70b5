-- ===== src/Api/Agents/Queue.antt =====
-- api.go, updates.go: the update commands of a machine, over heartbeats, the orders of administrators
-- and the other calls that queue commands, one after another.
use reach.Api.Agents.Ids.{
  ids, distinct_texts, unique_commands, queue_command_unique, queued, queue_command_cases,
}
use reach.Api.Agents.Messages.{is_command_of, result_row, store_result, store_command_results}
use reach.Api.Updates.{
  Updates, AgentUpdateRelease, is_open_update, has_open_update_command, update_ttl,
  update_agent_payload, latest_agent_update, record_update, queue_agent_update,
}
use reach.Base.Count.{count, count-append, count_weaken, count-update, count_none, map-update}
use reach.Base.{
  ℕ, ◌+◌, ◌≤◌, ◌≡◌, refl, ap, ◌∙◌, inl, inr, Bool, true, false, ◌&&◌, List, [], ◌∷◌, Option, none,
  some, arith, any, Text, same, ◌⊎◌, same_iff, if◌then◌else◌, Bool-cases, Option-cases, all-true,
}
use reach.Model.Agent.{AgentCommandInfo, AgentCommandResult}
use reach.Model.Words.{CommandType, is_open, is_update, never_updates}
use reach.Model.{Machine, Time}
use reach.Provisioner.Commands.{new_command, queue_command, or_same}
use reach.Store.{Db}

-- What holds of the table between two calls: its ids are distinct, and at the given time at most
-- one command to update the machine is open.
pub record IsCalm (id : Text) (now : Time) (db : Db) : Type 0 where
  pub unique : unique_commands db ≡ true
  pub one : count (is_open_update now id) db.commands ≤ 1

-- Time closes commands, by their expiry, and opens none.
later_closed :
    (id : Text) (now later : Time) (c : AgentCommandInfo)
    → now ≤ later
    → is_open_update later id c ≡ true
    → is_open_update now id c ≡ true
later_closed id now later c b h = elim (Option-cases c.expires_at) [
  | inl e ↦ ground (arith, e)
  | inr (t, e) ↦ ground (arith, e)
]

pub IsCalm-later :
    (id : Text) (now later : Time) (db : Db) → now ≤ later → IsCalm id now db → IsCalm id later db
IsCalm-later id now later db b h = record {
  unique = h.unique;
  one = omega (
    arith,
    h.one,
    count_weaken (is_open_update later id) (is_open_update now id)
        (λ c. later_closed id now later c b) db.commands,
  );
}

result_closed :
    (id machine : Text) (t now : Time) (r : AgentCommandResult) (c : AgentCommandInfo)
    → is_open_update t id (result_row now r c) ≡ false
unfolding is_open
result_closed id machine t now r c = ground arith

store_result-IsCalm :
    (id machine : Text) (t now : Time) (r : AgentCommandResult) (db : Db)
    → IsCalm id t db
    → IsCalm id t (store_result now machine r db)
unfolding store_result
store_result-IsCalm id machine t now r db h = elim (Bool-cases (same r.command_id [])) [
  | inl e ↦ rw (e, store_result) h
  | inr e ↦
      rw (e, store_result)
        (record {
          unique =
              ap distinct_texts (
                map-update (λ x. x.id) (is_command_of r.command_id machine) (result_row now r)
                  (λ x. refl) db.commands)
              ∙ h.unique;
          one = omega (
            arith,
            h.one,
            count-update (λ x. true) (is_command_of r.command_id machine) (result_row now r)
                (is_open_update t id)
                (λ x a b c. absurd (ground (arith, c, result_closed id machine t now r x)))
                db.commands (all-true db.commands),
          );
        })
]

pub store_command_results-IsCalm :
    (id machine : Text) (t now : Time) (rs : List AgentCommandResult) (db : Db)
    → IsCalm id t db
    → IsCalm id t (store_command_results now machine rs db)
unfolding store_command_results
store_command_results-IsCalm id machine t now [] db h = h
store_command_results-IsCalm id machine t now (r ∷ rs) db h =
    store_command_results-IsCalm id machine t now rs (store_result now machine r db)
      (store_result-IsCalm id machine t now r db h)

abbrev pub added : Bool → ℕ
added b = if b then 1 else 0

-- What a call that queues a command adds to the open update commands of a machine.
pub queue_command-count :
    (new_id : Option Text) (now : Time) (machine : Text) (gen : ℕ) (kind : CommandType)
    (payload : Option Text) (ttl : ℕ) (db : Db) (id : Text) (t : Time)
    → count (is_open_update t id) (queued new_id now machine gen kind payload ttl db)
      ≤ count (is_open_update t id) db.commands + added (same machine id && is_update kind)
queue_command-count new_id now machine gen kind payload ttl db id t =
    elim (queue_command_cases new_id now machine gen kind payload ttl db) [
      | inl e ↦ rw e (omega arith)
      | inr (x, n, e) ↦
          let row = new_command x now machine gen kind payload ttl in
          let more : count (is_open_update t id) (row ∷ [])
              ≤ added (same machine id && is_update kind) =
            ground arith in
          rw e (omega (arith, more, count-append (is_open_update t id) db.commands (row ∷ [])))
    ]

-- The call has left the commands, or it has queued an update command where none was open.
Queues : Time → Machine → List AgentCommandInfo → Db → Type 0
Queues now m cs db =
    (cs ≡ db.commands)
    ⊎ ((new_id : Option Text) × (payload : Option Text) × (any (is_open_update now m.id) db.commands
          ≡ false)
        × (cs
            ≡ queued new_id now m.id m.desired_generation CommandType.update_agent payload
                update_ttl db))

record_update_commands :
    (actor reason : Text) (now : Time) (m : Machine) (rel : AgentUpdateRelease) (o : Option Db)
    (db : Db)
    → (record_update actor reason now m rel o db).0.commands ≡ (or_same db o).commands
record_update_commands actor reason now m rel none db = refl
record_update_commands actor reason now m rel (some db') db = refl

queue_agent_update_cases :
    (u : Updates) (actor reason : Text) (now : Time) (new_id : Option Text) (m : Machine) (db : Db)
    → Queues now m (queue_agent_update u actor reason now new_id m db).0.commands db
unfolding queue_agent_update has_open_update_command Queues
queue_agent_update_cases u actor reason now new_id m db =
    elim (Bool-cases (never_updates m.update_policy)) [
      | inl a ↦ inl (ground (arith, a))
      | inr a ↦ elim (Option-cases (latest_agent_update u)) [
        | inl b ↦ inl (ground (arith, a, b))
        | inr (rel, b) ↦ elim (Bool-cases (any (is_open_update now m.id) db.commands)) [
          | inl c ↦ inl (ground (arith, a, b, c))
          | inr c ↦
              let payload = some (update_agent_payload u.quote rel) in
              let done =
                record_update_commands actor reason now m rel
                  (queue_command new_id now m.id m.desired_generation CommandType.update_agent
                    payload update_ttl db)
                  db in
              inr (new_id, payload, c, ground (arith, a, b, c, done))
        ]
      ]
    ]

-- Only the commands count.
pub IsCalm-commands :
    (id : Text) (t : Time) (db db' : Db)
    → db'.commands ≡ db.commands
    → IsCalm id t db
    → IsCalm id t db'
IsCalm-commands id t db db' e h = record {
  unique = ap (λ cs. distinct_texts (ids cs)) e ∙ h.unique;
  one = rw e h.one;
}

-- Where no update of a machine is open, one may be queued.
at_most_one :
    (new_id : Option Text) (now : Time) (m : Machine) (payload : Option Text) (db : Db) (id : Text)
    → any (is_open_update now m.id) db.commands ≡ false
    → count (is_open_update now id) db.commands ≤ 1
    → count
        (is_open_update now id)
        (queued new_id now m.id m.desired_generation CommandType.update_agent payload update_ttl db)
      ≤ 1
unfolding is_update
at_most_one new_id now m payload db id n h =
    let more =
      queue_command-count new_id now m.id m.desired_generation CommandType.update_agent payload
        update_ttl db id now in
    elim (Bool-cases (same m.id id)) [
      | inl s ↦
          let none_open = count_none (is_open_update now m.id) db.commands n in
          let zero_open : count (is_open_update now id) db.commands ≡ 0 =
            rw (← (same_iff m.id id).0 s) none_open in
          ground (arith, more, zero_open, s)
      | inr s ↦ ground (arith, more, s, h)
    ]

pub queue_agent_update-IsCalm :
    (u : Updates) (actor reason : Text) (now : Time) (new_id : Option Text) (m : Machine) (db : Db)
    (id : Text)
    → IsCalm id now db
    → IsCalm id now (queue_agent_update u actor reason now new_id m db).0
unfolding Queues
queue_agent_update-IsCalm u actor reason now new_id m db id h =
    elim (queue_agent_update_cases u actor reason now new_id m db) [
      | inl e ↦ IsCalm-commands id now db _ e h
      | inr (x, payload, n, e) ↦ record {
        unique =
            ap (λ cs. distinct_texts (ids cs)) e
            ∙ queue_command_unique x now m.id m.desired_generation CommandType.update_agent payload
                update_ttl db h.unique;
        one = rw e (at_most_one x now m payload db id n h.one);
      }
    ]

-- ===== src/Provisioner/Desired/Rows.antt =====
-- provisioner.go: what `SetDesiredState` does to the machines' table.
use reach.Base.Result.{ok, Result-cases}
use reach.Base.{
  ℕ, ◌+◌, ◌≡◌, refl, ap, ◌∙◌, inl, inr, Bool, true, false, List, [], ◌∷◌, Option, none, some, arith,
  if◌then◌else◌, find, update, Text, Bool-cases, ◌⊎◌,
}
use reach.Model.Words.{
  DesiredState, ObservedState, MachineStatus, CleanupState, CommandType, is_online,
}
use reach.Model.{Machine, Tunnel, Time}
use reach.Provisioner.Commands.{queue_command, or_same}
use reach.Provisioner.Desired.{
  Draws, active_row, disabled_row, retiring_row, set_active, set_disabled, set_retiring,
  retire_tunnels, change_desired, set_desired_state,
}
use reach.Store.{Db, get_machine, has_id}

pub queue_command_machines :
    (id : Option Text) (now : Time) (machine : Text) (gen : ℕ) (kind : CommandType)
    (payload : Option Text) (ttl : ℕ) (db : Db)
    → (or_same db (queue_command id now machine gen kind payload ttl db)).machines ≡ db.machines
unfolding queue_command
queue_command_machines none now machine gen kind payload ttl db = refl
queue_command_machines (some id) now machine gen kind payload ttl db = ground arith

pub retire_tunnels_machines :
    (ts : List Tunnel) (db : Db) → (retire_tunnels ts db).machines ≡ db.machines
unfolding retire_tunnels
retire_tunnels_machines [] db = refl
retire_tunnels_machines (t ∷ ts) db = retire_tunnels_machines ts _

-- The row that a state other than retired makes of a machine's row.
abbrev pub changed_row : DesiredState → ℕ → Time → Text → Machine → Machine
changed_row DesiredState.active = active_row
changed_row DesiredState.disabled = disabled_row
changed_row DesiredState.retiring = retiring_row
changed_row DesiredState.retired = λ gen now actor m. m

abbrev pub is_live : DesiredState → Bool
is_live DesiredState.retired = false
is_live _ = true

change_desired_machines :
    (d : Draws) (actor : Text) (m : Machine) (desired : DesiredState) (db : Db)
    → is_live desired ≡ true
    → (change_desired d actor m (some desired) db).0.machines
      ≡ update
          (has_id m.id)
          (changed_row desired (m.desired_generation + 1) d.now actor)
          db.machines
unfolding change_desired set_active set_disabled set_retiring
change_desired_machines d actor m DesiredState.active db h = simp queue_command_machines
change_desired_machines d actor m DesiredState.disabled db h = simp queue_command_machines
change_desired_machines d actor m DesiredState.retiring db h = simp queue_command_machines
change_desired_machines d actor m DesiredState.retired db h = cc

-- The rows of a table, by id, where one machine's row is changed.
abbrev pub row_changed : Text → (Machine → Machine) → Option Machine → Option Machine
row_changed id f none = none
row_changed id f (some r) = some (if has_id id r then f r else r)

find-row :
    (id x : Text) (f : Machine → Machine)
    → ((r : Machine) → (f r).id ≡ r.id)
    → (rows : List Machine)
    → find (has_id x) (update (has_id id) f rows) ≡ row_changed id f (find (has_id x) rows)
find-row id x f keeps [] = refl
find-row id x f keeps (r ∷ rows) = ground (arith, keeps r, find-row id x f keeps rows)

changed_row_id :
    (desired : DesiredState) (gen : ℕ) (now : Time) (actor : Text) (r : Machine)
    → (changed_row desired gen now actor r).id ≡ r.id
changed_row_id DesiredState.active gen now actor r = refl
changed_row_id DesiredState.disabled gen now actor r = refl
changed_row_id DesiredState.retiring gen now actor r = refl
changed_row_id DesiredState.retired gen now actor r = refl

change_desired_ok :
    (d : Draws) (actor : Text) (m : Machine) (desired : DesiredState) (db : Db)
    → is_live desired ≡ true
    → (change_desired d actor m (some desired) db).1 ≡ ok tt
unfolding change_desired
change_desired_ok d actor m DesiredState.active db h = refl
change_desired_ok d actor m DesiredState.disabled db h = refl
change_desired_ok d actor m DesiredState.retiring db h = refl
change_desired_ok d actor m DesiredState.retired db h = cc

finish_machines :
    (d : Draws) (key actor : Text) (desired : Option DesiredState) (m : Machine) (db : Db)
    → get_machine db key ≡ some m
    → (set_desired_state d key desired actor db).0.machines
      ≡ (change_desired d actor m desired db).0.machines
unfolding set_desired_state
finish_machines d key actor desired m db e =
    elim (Result-cases (change_desired d actor m desired db).1) [
      | inl (_, done) ↦ rw (e, set_desired_state) (ground (arith, done))
      | inr (x, failed) ↦ rw (e, set_desired_state) (ground (arith, failed))
    ]

set_desired_state_rows :
    (d : Draws) (key actor : Text) (desired : DesiredState) (m : Machine) (db : Db) (x : Text)
    → is_live desired ≡ true
    → get_machine db key ≡ some m
    → find (has_id x) (set_desired_state d key (some desired) actor db).0.machines
      ≡ row_changed m.id
          (changed_row desired (m.desired_generation + 1) d.now actor)
          (find (has_id x) db.machines)
set_desired_state_rows d key actor desired m db x live e =
    let gen = m.desired_generation + 1 in
    ap (find (has_id x)) (
      finish_machines d key actor (some desired) m db e
      ∙ change_desired_machines d actor m desired db live)
    ∙ find-row m.id x (changed_row desired gen d.now actor) (changed_row_id desired gen d.now actor)
        db.machines

-- What the row of a machine shows of each state: the status, when it was disabled, its cleanup.
abbrev pub StateShown : DesiredState → Time → Machine → Machine → Type 0
StateShown DesiredState.active now r r' =
    (r'.status
      ≡ MachineStatus.observed (elim r.observed_state [
        | ObservedState.online ↦ ObservedState.online
        | _ ↦ ObservedState.offline
      ]))
    × (r'.disabled_at ≡ none)
    × (r'.cleanup_state ≡ none)
StateShown DesiredState.disabled now r r' =
    (r'.status ≡ MachineStatus.disabled) × (r'.disabled_at ≡ some now) × (r'.cleanup_state ≡ none)
StateShown DesiredState.retiring now r r' =
    (r'.status ≡ MachineStatus.retiring)
    × (r'.disabled_at ≡ r.disabled_at)
    × (r'.cleanup_state ≡ some CleanupState.pending)
StateShown DesiredState.retired now r r' = ⊥

pub record RowShown (desired : DesiredState) (gen : ℕ) (now : Time) (actor : Text) (r r' : Machine)
    : Type 0 where
  pub desired_state : r'.desired_state ≡ desired
  pub generation : r'.desired_generation ≡ gen
  pub changed_at : r'.desired_changed_at ≡ some now
  pub changed_by : r'.desired_changed_by ≡ some actor
  pub shown : StateShown desired now r r'
  pub id : r'.id ≡ r.id
  pub slug : r'.slug ≡ r.slug
  pub observed_state : r'.observed_state ≡ r.observed_state
  pub agent_token_hash : r'.agent_token_hash ≡ r.agent_token_hash
  pub retired_at : r'.retired_at ≡ r.retired_at

-- The rows that an id finds before and after: the machine's own, another's, or none.
abbrev pub RowSpec :
    DesiredState → ℕ → Time → Text → Text → Option Machine → Option Machine → Type 0
RowSpec wanted gen now actor id none none = Unit {0}
RowSpec wanted gen now actor id (some r) (some r') =
    (has_id id r ≡ true) × RowShown wanted gen now actor r r' ⊎ (has_id id r ≡ false) × (r' ≡ r)
RowSpec wanted gen now actor id _ _ = ⊥

online_or_offline :
    (s : ObservedState)
    → MachineStatus.observed (if is_online s then ObservedState.online else ObservedState.offline)
      ≡ MachineStatus.observed
          (elim s [ ObservedState.online ↦ ObservedState.online | _ ↦ ObservedState.offline ])
unfolding is_online
online_or_offline s = ground arith

changed_row-RowShown :
    (desired : DesiredState) (gen : ℕ) (now : Time) (actor : Text) (r : Machine)
    → is_live desired ≡ true
    → RowShown desired gen now actor r (changed_row desired gen now actor r)
changed_row-RowShown DesiredState.active gen now actor r live = record {
  desired_state = refl;
  generation = refl;
  changed_at = refl;
  changed_by = refl;
  shown = (online_or_offline r.observed_state, refl, refl);
  id = refl;
  slug = refl;
  observed_state = refl;
  agent_token_hash = refl;
  retired_at = refl;
}
changed_row-RowShown DesiredState.disabled gen now actor r live = record {
  desired_state = refl;
  generation = refl;
  changed_at = refl;
  changed_by = refl;
  shown = (refl, refl, refl);
  id = refl;
  slug = refl;
  observed_state = refl;
  agent_token_hash = refl;
  retired_at = refl;
}
changed_row-RowShown DesiredState.retiring gen now actor r live = record {
  desired_state = refl;
  generation = refl;
  changed_at = refl;
  changed_by = refl;
  shown = (refl, refl, refl);
  id = refl;
  slug = refl;
  observed_state = refl;
  agent_token_hash = refl;
  retired_at = refl;
}
changed_row-RowShown DesiredState.retired gen now actor r live = cc

row_changed-RowSpec :
    (desired : DesiredState) (gen : ℕ) (now : Time) (actor id : Text) (o : Option Machine)
    → is_live desired ≡ true
    → RowSpec desired gen now actor id o (row_changed id (changed_row desired gen now actor) o)
row_changed-RowSpec wanted gen now actor id none live = tt
row_changed-RowSpec wanted gen now actor id (some r) live = elim (Bool-cases (has_id id r)) [
  | inl e ↦ rw e (inl (refl, changed_row-RowShown wanted gen now actor r live))
  | inr e ↦ rw e (inr (refl, refl))
]

-- `SetDesiredState` to active, disabled or retiring, at a machine that is there. In the row that an id
-- finds, where it is the machine's, the desired state, the generation (one more than was read), who
-- changed it and when are set; so is the status, to disabled or retiring, or for active to online
-- where the observed state is online and to offline where it is not; disabling sets the time of it,
-- enabling clears it, and retiring makes the cleanup pending; the id, the slug, the observed state,
-- the token's hash and the time of retiring stay. Every other row is as before, and an id that was in
-- no row is in none after.
pub set_desired_state-RowSpec :
    (d : Draws) (key actor : Text) (desired : DesiredState) (m : Machine) (db : Db) (x : Text)
    → is_live desired ≡ true
    → get_machine db key ≡ some m
    → RowSpec desired
        (m.desired_generation + 1)
        d.now
        actor
        m.id
        (find (has_id x) db.machines)
        (find (has_id x) (set_desired_state d key (some desired) actor db).0.machines)
set_desired_state-RowSpec d key actor desired m db x live e =
    rw (set_desired_state_rows d key actor desired m db x live e) (
      row_changed-RowSpec desired (m.desired_generation + 1) d.now actor m.id
        (find (has_id x) db.machines) live)

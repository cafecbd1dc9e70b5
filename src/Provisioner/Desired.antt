-- ===== src/Provisioner/Desired.antt =====
-- provisioner.go: `SetDesiredState`, and the calls that name one state.
pub mod Rows
pub mod Access
pub mod Orders
use reach.Base.Result.{Result, ok, err}
use reach.Base.{
  ℕ, ◌+◌, ◌*◌, Bool, true, false, not, ◌&&◌, ◌||◌, List, [], ◌∷◌, ◌++◌, Option, none, some,
  if◌then◌else◌, any, update, Text, codes, same,
}
use reach.Model.Words.{
  DesiredState, ObservedState, MachineStatus, TunnelStatus, CleanupState, CommandType, is_online,
  is_disabled_tunnel, is_retired_tunnel,
}
use reach.Model.{Machine, Tunnel, Time}
use reach.Provisioner.Accounts.{disable_all, enable_all, remove_tunnel_system}
use reach.Provisioner.Commands.{
  queue_command, or_same, enabled_payload, disabled_payload, uninstall_payload,
}
use reach.Provisioner.Retire.{retire_tunnel_row, text_or}
use reach.Provisioner.Slugs.{SlugError, retired_slug, slug_held}
use reach.Store.{Db, get_machine, tunnels_of, has_id, audit, coalesce}

-- What a call draws and reads from outside: the time, the ids of the commands that it queues, and
-- the short names for a retired slug, and on which accounts renaming `authorized_keys` succeeds.
pub record Draws : Type 0 where
  pub now : Time
  pub first_id : Option Text
  pub second_id : Option Text
  pub shorts : ℕ → Option Text
  pub renames : Text → Bool

pub data Error : Type 0 where
  not_found invalid_state slug_taken : Error
  no_slug : SlugError → Error

abbrev pub of_machine : Text → Tunnel → Bool
of_machine id t = same t.machine_id id

abbrev pub set_tunnel_status : TunnelStatus → Tunnel → Tunnel
set_tunnel_status s t = record t { status = s }

-- The columns that every state sets.
abbrev pub desire : DesiredState → ℕ → Time → Text → Machine → Machine
desire d gen now actor m = record m {
  desired_state = d;
  desired_generation = gen;
  desired_changed_at = some now;
  desired_changed_by = some actor;
  updated_at = some now;
}

abbrev pub active_row : ℕ → Time → Text → Machine → Machine
active_row gen now actor m = record (desire DesiredState.active gen now actor m) {
  status =
      MachineStatus.observed
        (if is_online m.observed_state then ObservedState.online else ObservedState.offline);
  disabled_at = none;
  cleanup_state = none;
}

abbrev pub disabled_row : ℕ → Time → Text → Machine → Machine
disabled_row gen now actor m = record (desire DesiredState.disabled gen now actor m) {
  status = MachineStatus.disabled;
  disabled_at = some now;
  cleanup_state = none;
}

abbrev pub retiring_row : ℕ → Time → Text → Machine → Machine
retiring_row gen now actor m = record (desire DesiredState.retiring gen now actor m) {
  status = MachineStatus.retiring;
  cleanup_state = some CleanupState.pending;
}

abbrev pub retired_row : Text → Text → ℕ → Time → Text → Machine → Machine
retired_row slug original gen now actor m = record (desire DesiredState.retired gen now actor m) {
  slug = slug;
  original_slug = some (text_or m.original_slug original);
  status = MachineStatus.retired;
  cleanup_state = coalesce m.cleanup_state (some CleanupState.server_only);
  retired_at = coalesce m.retired_at (some now);
}

abbrev pub update_machine : Text → (Machine → Machine) → Db → Db
update_machine id f db = record db { machines = update (has_id id) f db.machines }

abbrev pub update_tunnels : (Tunnel → Bool) → (Tunnel → Tunnel) → Db → Db
update_tunnels p f db = record db { tunnels = update p f db.tunnels }

abbrev hour : ℕ
hour = 3600

abbrev day : ℕ
day = 24 * hour

set_active : Draws → Text → Machine → ℕ → List Tunnel → Db → Db
unfolding enable_all queue_command
set_active d actor m gen tunnels db =
    let db1 = record db { accounts = enable_all d.renames tunnels db.accounts } in
    let db2 = update_machine m.id (active_row gen d.now actor) db1 in
    let db3 =
      update_tunnels (λ t. of_machine m.id t && is_disabled_tunnel t.status)
        (set_tunnel_status TunnelStatus.offline) db2 in
    let db4 = or_same db3 (
      queue_command d.first_id d.now m.id gen CommandType.sync_keys (some enabled_payload) hour
        db3) in
    or_same db4 (queue_command d.second_id d.now m.id gen CommandType.start_tunnel none hour db4)

set_disabled : Draws → Text → Machine → ℕ → List Tunnel → Db → Db
unfolding disable_all queue_command
set_disabled d actor m gen tunnels db =
    let db1 = record db { accounts = disable_all d.renames tunnels db.accounts } in
    let db2 = update_machine m.id (disabled_row gen d.now actor) db1 in
    let db3 = update_tunnels (of_machine m.id) (set_tunnel_status TunnelStatus.disabled) db2 in
    let db4 =
      or_same db3 (queue_command d.first_id d.now m.id gen CommandType.stop_tunnel none hour db3) in
    or_same db4 (
      queue_command d.second_id d.now m.id gen CommandType.sync_keys (some disabled_payload) hour
        db4)

set_retiring : Draws → Text → Machine → ℕ → List Tunnel → Db → Db
unfolding disable_all queue_command
set_retiring d actor m gen tunnels db =
    let db1 = record db { accounts = disable_all d.renames tunnels db.accounts } in
    let db2 = update_machine m.id (retiring_row gen d.now actor) db1 in
    let db3 = update_tunnels (of_machine m.id) (set_tunnel_status TunnelStatus.disabled) db2 in
    or_same db3 (
      queue_command d.first_id d.now m.id gen CommandType.uninstall (some uninstall_payload) day
        db3)

-- The loop over a machine's tunnels when it is retired.
unfoldable pub retire_tunnels : List Tunnel → Db → Db
unfolding retire_tunnel_row remove_tunnel_system
retire_tunnels [] db = db
retire_tunnels (t ∷ ts) db = retire_tunnels ts (record db {
  accounts =
      if is_retired_tunnel t.status
      then db.accounts
      else remove_tunnel_system (text_or t.original_unix_user t.unix_user) db.accounts;
  tunnels = retire_tunnel_row db.tunnels t;
})

set_retired : Draws → Text → Machine → ℕ → List Tunnel → Db → Db × Result Error (Unit {0})
unfolding retire_tunnels retired_slug
set_retired d actor m gen tunnels db =
    let db1 = retire_tunnels tunnels db in
    let original = text_or m.original_slug m.slug in
    elim (retired_slug d.shorts db1.machines original m.id) [
      | err e ↦ (db1, err (no_slug e))
      | ok slug ↦
          if slug_held slug m.id db1.machines
          then (db1, err slug_taken)
          else (update_machine m.id (retired_row slug original gen d.now actor) db1, ok tt)
    ]

-- The switch on the desired state; `none` is any other word.
unfoldable pub change_desired :
    Draws → Text → Machine → Option DesiredState → Db → Db × Result Error (Unit {0})
unfolding set_active set_disabled set_retiring set_retired
change_desired d actor m none db = (db, err invalid_state)
change_desired d actor m (some DesiredState.active) db =
    (set_active d actor m (m.desired_generation + 1) (tunnels_of db m.id) db, ok tt)
change_desired d actor m (some DesiredState.disabled) db =
    (set_disabled d actor m (m.desired_generation + 1) (tunnels_of db m.id) db, ok tt)
change_desired d actor m (some DesiredState.retiring) db =
    (set_retiring d actor m (m.desired_generation + 1) (tunnels_of db m.id) db, ok tt)
change_desired d actor m (some DesiredState.retired) db =
    set_retired d actor m (m.desired_generation + 1) (tunnels_of db m.id) db

abbrev pub desired_word : DesiredState → Text
desired_word DesiredState.active = codes "active"
desired_word DesiredState.disabled = codes "disabled"
desired_word DesiredState.retiring = codes "retiring"
desired_word DesiredState.retired = codes "retired"

abbrev pub desired_text : Option DesiredState → Text
desired_text none = []
desired_text (some d) = desired_word d

abbrev found : Option Machine → Result Error Machine
found none = err not_found
found (some m) = ok m

abbrev pub finish :
    Draws
    → Text
    → Text
    → Option DesiredState
    → Db × Result Error (Unit {0})
    → Db × Result Error Machine
finish d actor id desired (db, err e) = (db, err e)
finish d actor id desired (db, ok _) =
    let db' = audit (codes "machine.desired." ++ desired_text desired) actor id [] d.now db in
    (db', found (get_machine db' id))

unfoldable pub set_desired_state :
    Draws → Text → Option DesiredState → Text → Db → Db × Result Error Machine
unfolding change_desired
set_desired_state d key desired actor db = elim (get_machine db key) [
  | none ↦ (db, err not_found)
  | some m ↦ finish d actor m.id desired (change_desired d actor m desired db)
]

-- `DisableMachine`, `EnableMachine`, `RemoveMachine` and `RetireMachineNow`.
abbrev pub disable_machine : Draws → Text → Text → Db → Db × Result Error Machine
disable_machine d key = set_desired_state d key (some DesiredState.disabled)

abbrev pub enable_machine : Draws → Text → Text → Db → Db × Result Error Machine
enable_machine d key = set_desired_state d key (some DesiredState.active)

abbrev pub remove_machine : Draws → Text → Text → Db → Db × Result Error Machine
remove_machine d key = set_desired_state d key (some DesiredState.retiring)

abbrev pub retire_machine_now : Draws → Text → Text → Db → Db × Result Error Machine
retire_machine_now d key = set_desired_state d key (some DesiredState.retired)

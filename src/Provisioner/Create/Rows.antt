-- ===== src/Provisioner/Create/Rows.antt =====
-- provisioner.go: the rows that `CreateMachine` inserts and changes, and what it is given.
use reach.Base.Int.{ℤ, pos, same_ℤ}
use reach.Base.{
  ℕ, ◌+◌, Bool, ◌||◌, [], ◌∷◌, ◌++◌, Option, none, some, ltb, if◌then◌else◌, any, update, Text,
  codes, same,
}
use reach.Model.Words.{
  DesiredState, ObservedState, MachineStatus, TunnelStatus, UpdatePolicy, CleanupState,
}
use reach.Model.{Machine, Hub, Tunnel, Time}
use reach.Provisioner.Retire.{clash, is_tunnel}
use reach.Store.{Db, has_id, nullable, audit}

pub record CreateMachineInput : Type 0 where
  pub slug : Text
  pub display_name : Text
  pub target_user : Text
  pub mode : Text
  pub local_port : ℤ
  pub persistence : Text
  pub distro : Text
  pub arch : Text
  pub pubkey : Text
  pub owner_user_id : Text
  pub hub_id : Text
  pub expires_at : Option Time

pub record CreateMachineResult : Type 0 where
  pub machine : Option Machine
  pub tunnel : Option Tunnel
  pub hub : Hub
  pub agent_token : Text

-- What the call reads of the configuration.
pub record Config : Type 0 where
  pub default_hub : Text
  pub default_expiry : ℕ
  pub provisioning_enabled : Bool

-- What the call draws and what the host answers: `ssh.ParseAuthorizedKey`, the ports that listen,
-- the error of `createSystemAccount`, `none` where it has made the account, and `%d`.
pub record Host : Type 0 where
  pub now : Time
  pub machine_id : Option Text
  pub tunnel_id : Option Text
  pub short : Option Text
  pub agent_token : Option Text
  pub salt : Text
  pub parses_key : Text → Bool
  pub listening : ℕ → Bool
  pub account_error : Option Text
  pub decimal : ℕ → Text

pub data CreateError : Type 0 where
  bad_slug bad_target_user bad_pubkey no_random no_hub no_port constraint : CreateError
  no_account : Text → CreateError

-- The values that the code fills in.
abbrev pub with_defaults : Config → Time → CreateMachineInput → CreateMachineInput
with_defaults cfg now input = record input {
  local_port = if same_ℤ input.local_port (pos 0) then pos 22 else input.local_port;
  mode = if same input.mode [] then codes "system" else input.mode;
  hub_id = if same input.hub_id [] then cfg.default_hub else input.hub_id;
  expires_at = elim input.expires_at [
    | none ↦ if ltb 0 cfg.default_expiry then some (now + cfg.default_expiry) else none
    | some t ↦ some t
  ];
}

abbrev pub new_machine : CreateMachineInput → Text → Text → Time → Machine
new_machine input id hash now = record {
  id = id;
  slug = input.slug;
  original_slug = some input.slug;
  display_name = nullable input.display_name;
  target_user = nullable input.target_user;
  owner_user_id = nullable input.owner_user_id;
  status = MachineStatus.provisioning;
  desired_state = DesiredState.active;
  observed_state = ObservedState.unknown;
  desired_generation = 1;
  update_policy = UpdatePolicy.manual;
  desired_changed_at = some now;
  desired_changed_by = some (codes "system");
  cleanup_state = some CleanupState.pending;
  mode = some input.mode;
  local_port = input.local_port;
  persistence = nullable input.persistence;
  distro = nullable input.distro;
  arch = nullable input.arch;
  provision_error = none;
  created_at = now;
  updated_at = some now;
  expires_at = input.expires_at;
  disabled_at = none;
  retired_at = none;
  process_title_config = none;
  agent_token_hash = some hash;
}

abbrev pub new_tunnel : CreateMachineInput → Text → Text → Hub → Text → ℕ → Time → Tunnel
new_tunnel input id machine hub user port now = record {
  id = id;
  machine_id = machine;
  hub_id = hub.id;
  unix_user = user;
  original_unix_user = some user;
  remote_port = pos port;
  original_remote_port = some (pos port);
  tunnel_pubkey = input.pubkey;
  status = TunnelStatus.offline;
  last_seen_at = none;
  created_at = now;
  expires_at = input.expires_at;
}

-- The keys of the two tables that a new row must not repeat.
abbrev pub machine_clash : Machine → Machine → Bool
machine_clash m n = same m.id n.id || same m.slug n.slug

abbrev pub tunnel_clash : Tunnel → Tunnel → Bool
tunnel_clash t u = same t.id u.id || clash t u

-- The transaction's two INSERTs.
unfoldable pub insert_rows : Machine → Tunnel → Db → Option Db
insert_rows m t db =
    if any (machine_clash m) db.machines || any (tunnel_clash t) db.tunnels
    then none
    else some (record db { machines = db.machines ++ m ∷ []; tunnels = db.tunnels ++ t ∷ [] })

abbrev pub failed_row : Text → Time → Machine → Machine
failed_row message now m = record m {
  status = MachineStatus.failed;
  provision_error = some message;
  updated_at = some now;
}

abbrev failed_tunnel : Tunnel → Tunnel
failed_tunnel t = record t { status = TunnelStatus.failed }

abbrev pub mark_provision_failed : Text → Text → Text → Time → Db → Db
mark_provision_failed machine tunnel message now db =
    audit (codes "machine.provision_failed") (codes "system") machine message now (record db {
      machines = update (has_id machine) (failed_row message now) db.machines;
      tunnels = update (is_tunnel tunnel) failed_tunnel db.tunnels;
    })

abbrev pub ready_row : Time → Machine → Machine
ready_row now m = record m {
  status = MachineStatus.observed ObservedState.offline;
  observed_state = ObservedState.offline;
  cleanup_state = none;
  updated_at = some now;
}

abbrev pub details : Host → Text → Text → ℕ → Text
details host slug user port =
    codes "slug=" ++ (slug ++ (codes " tunnel=" ++ (user ++ (codes " port=" ++ host.decimal port))))

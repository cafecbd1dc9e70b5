-- ===== src/Store.antt =====
-- db.go: the tables of the hub's database, as lists of rows in the order of their insertion, and the
-- hub host's tunnel accounts beside them. A statement is a function on these lists; a statement that
-- breaks a UNIQUE or PRIMARY KEY constraint is refused and changes nothing.
pub mod Laws
use reach.Base.Int.{ℤ, same_ℤ}
use reach.Base.{
  ℕ, Bool, true, not, ◌&&◌, ◌||◌, List, [], ◌∷◌, ◌++◌, Option, none, some, if◌then◌else◌, find, any,
  select, Text, same,
}
use reach.Model.Agent.{AgentCommandInfo}
use reach.Model.{Machine, Hub, Tunnel, Request, AgentObservation, HubObservation, Time}

pub record Audit : Type 0 where
  pub action : Text
  pub actor : Text
  pub machine_id : Option Text
  pub details : Option Text
  pub created_at : Time

pub record Event : Type 0 where
  pub kind : Text
  pub machine_id : Text

pub record Invite : Type 0 where
  pub code_hash : Text
  pub kind : Text
  pub expires_at : Time
  pub used_by : Option Text

-- An account of the hub host that carries a tunnel: whether its `authorized_keys` is there, and
-- whether `authorized_keys.disabled` is.
pub record Account : Type 0 where
  pub unix_user : Text
  pub keys : Bool
  pub disabled_keys : Bool

-- access_keys
pub record AccessKey : Type 0 where
  pub id : Text
  pub user_id : Text
  pub label : Text
  pub public_key : Text
  pub created_at : Time
  pub revoked_at : Option Time

-- agent_status
pub record AgentStatus : Type 0 where
  pub machine_id : Text
  pub agent_version : Text
  pub transport : Text
  pub transport_state : Text
  pub local_ssh_state : Text
  pub local_ssh_error : Option Text
  pub tunnel_state : Text
  pub tunnel_pid : Option ℤ
  pub tunnel_error : Option Text
  pub last_error : Option Text
  pub raw_json : Text
  pub updated_at : Time

-- users
pub record User : Type 0 where
  pub id : Text
  pub username : Text
  pub password_hash : Text
  pub role : Text
  pub created_at : Time

-- service_tokens
pub record ServiceToken : Type 0 where
  pub id : Text
  pub label : Text
  pub token_hash : Text
  pub role : Text
  pub created_by : Text
  pub created_at : Time
  pub last_used_at : Option Time
  pub revoked_at : Option Time

-- jwt_blacklist
pub record Blacklisted : Type 0 where
  pub token_hash : Text
  pub expires_at : Time
  pub created_at : Time

-- The tables that the modelled code reads or writes; grants are left out.
pub record Db : Type 0 where
  pub machines : List Machine
  pub hubs : List Hub
  pub tunnels : List Tunnel
  pub requests : List Request
  pub invites : List Invite
  pub commands : List AgentCommandInfo
  pub agents : List AgentObservation
  pub probes : List HubObservation
  pub accounts : List Account
  pub audits : List Audit
  pub events : List Event
  pub access_keys : List AccessKey
  pub statuses : List AgentStatus
  pub users : List User
  pub service_tokens : List ServiceToken
  pub blacklist : List Blacklisted

abbrev pub has_id : Text → Machine → Bool
has_id id m = same m.id id

-- `GetMachine`: `WHERE id=? OR slug=?`.
abbrev pub get_machine : Db → Text → Option Machine
get_machine db key = find (λ m. same m.id key || same m.slug key) db.machines

abbrev pub tunnels_of : Db → Text → List Tunnel
tunnels_of db id = select (λ t. same t.machine_id id) db.tunnels

-- `nullable` and `nullString`.
unfoldable pub nullable : Text → Option Text
nullable [] = none
nullable (c ∷ s) = some (c ∷ s)

-- `COALESCE(a, b)`.
abbrev pub coalesce {ℓ} : {A : Type ℓ} → Option A → Option A → Option A
coalesce none b = b
coalesce (some a) b = some a

-- `Store.Audit`
abbrev pub audit : Text → Text → Text → Text → Time → Db → Db
audit action actor machine details now db = record db {
  audits =
      db.audits
      ++ record {
        action = action;
        actor = actor;
        machine_id = nullable machine;
        details = nullable details;
        created_at = now;
      }
        ∷ [];
}

-- `publishEvent`, as far as the event goes by its type and machine.
abbrev pub publish : Text → Text → Db → Db
publish kind machine db = record db {
  events = db.events ++ record { kind = kind; machine_id = machine } ∷ [];
}

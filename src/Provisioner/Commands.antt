-- ===== src/Provisioner/Commands.antt =====
-- provisioner.go: `QueueCommand`.
use reach.Base.{
  ℕ, ◌+◌, ◌++◌, [], ◌∷◌, Option, none, some, ltb, if◌then◌else◌, any, Text, codes, same,
}
use reach.Model.Agent.{AgentCommandInfo}
use reach.Model.Words.{CommandStatus, CommandType}
use reach.Model.{Time}
use reach.Store.{Db}

-- `ttl` in seconds, 0 for none.
abbrev pub expiry : Time → ℕ → Option Time
expiry now ttl = if ltb 0 ttl then some (now + ttl) else none

abbrev pub new_command : Text → Time → Text → ℕ → CommandType → Option Text → ℕ → AgentCommandInfo
new_command id now machine gen kind payload ttl = record {
  id = id;
  machine_id = machine;
  generation = gen;
  kind = kind;
  payload = payload;
  status = CommandStatus.pending;
  created_at = now;
  sent_at = none;
  acked_at = none;
  expires_at = expiry now ttl;
  last_error = none;
}

-- `none` where no id can be drawn, or the id is taken.
unfoldable pub queue_command :
    Option Text → Time → Text → ℕ → CommandType → Option Text → ℕ → Db → Option Db
queue_command none now machine gen kind payload ttl db = none
queue_command (some id) now machine gen kind payload ttl db =
    if any (λ c. same c.id id) db.commands
    then none
    else some (record db {
      commands = db.commands ++ new_command id now machine gen kind payload ttl ∷ [];
    })

-- `_ = p.QueueCommand(…)`
abbrev pub or_same : Db → Option Db → Db
or_same db none = db
or_same db (some db') = db'

abbrev pub enabled_payload : Text
enabled_payload = codes "{\"enabled\":true}"

abbrev pub disabled_payload : Text
disabled_payload = codes "{\"enabled\":false}"

abbrev pub uninstall_payload : Text
uninstall_payload =
    codes
      "{\"remove_admin_keys\":true,\"remove_agent\":true,\"remove_config\":true,\"remove_data\":true,\"stop_local_user_sshd\":true}"

-- ===== src/Tests/Agents.antt =====
-- The agents' calls at a hub with one machine.
use reach.Api.Agents.Access.{
  Guarded, vouched, agent_heartbeat-Guarded, agent_heartbeat-idle, agent_uninstall-IsClosed,
}
use reach.Api.Agents.Messages.{Outside, Call}
use reach.Api.Agents.Queue.{IsCalm}
use reach.Api.Agents.Turns.{Turns, Turns-IsCalm, beats, orders, none_left}
use reach.Api.Agents.{observation, Uninstall, agent_heartbeat, agent_uninstall}
use reach.Base.Split.{unlines}
use reach.Api.SshConfig.{HostRow, head_lines, host_lines, generate_ssh_config, host_rows}
use reach.Api.SshConfig.Lines.{is_host_line, listed_row, generate_ssh_config_hosts}
use reach.Api.Updates.{Updates, admin_update_agent}
use reach.Base.Int.{pos}
use reach.Base.Result.{ok}
use reach.Base.{
  ◌≡◌, refl, true, false, [], ◌∷◌, ◌++◌, none, some, arith, all, map, select, Text, codes, same,
  split,
}
use reach.Model.Agent.{AgentCommandInfo, AgentHeartbeat, AgentComponentStatus, AgentTunnelStatus}
use reach.Model.Words.{is_update, CommandStatus, CommandType, is_update}
use reach.Provisioner.Desired.Access.{IsClosed}
use reach.Provisioner.Observed.Probes.{idle}
use reach.Store.{Db, tunnels_of}
use reach.Tests.Data.{toy, machine, secret_hash}
use reach.Tests.Machines.{draws}

abbrev component : AgentComponentStatus
component = record { state = codes "healthy"; host = []; port = pos 22; mode = []; error = [] }

abbrev tunnel_status : AgentTunnelStatus
tunnel_status = record {
  state = codes "connected";
  remote_port = pos 9160;
  pid = pos 7;
  transport = codes "ssh";
  connected_since = [];
  error = [];
}

abbrev heartbeat : AgentHeartbeat
heartbeat = record {
  machine_id = codes "m_1";
  install_id = [];
  slug = codes "box-1";
  agent_version = codes "1.0";
  capabilities = record {
    commands = [];
    transports = [];
    can_manage_local_sshd = false;
    can_self_update = true;
    ssh = record {
      client_version = [];
      tunnel_key_type = [];
      user_sshd_host_key_type = [];
      tunnel_options = [];
      client_options = [];
      supported_authorized_key_types = [];
    };
  };
  applied_generation = 1;
  observed = record {
    agent_state = codes "running";
    local_ssh = component;
    tunnel = tunnel_status;
    persistence = record { backend = []; quality = []; reboot_safe = true; notes = [] };
    keys = record { installed_admin_key_fingerprints = []; generation = 1 };
  };
  command_results = record { command_id = codes "c_0"; status = codes "ok"; message = [] } ∷ [];
  shutdown = none;
  transport = [];
  transport_state = [];
  local_ssh = component;
  tunnel = tunnel_status;
  last_error = [];
  checked_at = [];
}

abbrev updates : Updates
updates = record {
  config = record {
    enabled = true;
    latest_version = codes "1.1";
    manifest_path = [];
    api_url = codes "https://hub.example/";
  };
  hub_api_url = codes "https://hub.example";
  read_manifest = λ path. none;
  quote = λ s. codes "\"" ++ (s ++ codes "\"");
}

abbrev outside : Outside
outside = record {
  crypto = toy;
  decode_heartbeat = λ raw. some heartbeat;
  options_of = λ raw. some (codes "Ciphers=aes128-ctr" ∷ codes "ProxyCommand=x" ∷ []);
  marshal_list = λ ss. codes "[]";
  fingerprint = λ key. key;
  updates = updates;
  health_interval = 30;
  offline_after = 90;
}

abbrev call : Call
call = record {
  authorization = codes "Bearer s";
  raw = codes "{}";
  now = 500;
  command_id = some (codes "c_9");
}

abbrev command : AgentCommandInfo
command = record {
  id = codes "c_1";
  machine_id = codes "m_1";
  generation = 1;
  kind = CommandType.sync_keys;
  payload = none;
  status = CommandStatus.sent;
  created_at = 100;
  sent_at = some 110;
  acked_at = none;
  expires_at = some 3700;
  last_error = none;
}

abbrev hub_db : Db
hub_db = record reach.Tests.Data.db {
  machines = record machine { agent_token_hash = some secret_hash } ∷ [];
  commands = command ∷ [];
  agents = observation outside 490 (codes "{}") heartbeat ∷ [];
}

agent_heartbeat-Guarded_example :
    Guarded
      (codes "Bearer s")
      (vouched outside (codes "{}") hub_db)
      hub_db
      (agent_heartbeat outside call hub_db)
agent_heartbeat-Guarded_example = agent_heartbeat-Guarded outside call hub_db

agent_heartbeat-idle_example :
    idle (agent_heartbeat outside call hub_db).0.tunnels ≡ idle hub_db.tunnels
agent_heartbeat-idle_example = agent_heartbeat-idle outside call hub_db

abbrev leaving : Uninstall
leaving = record { authorization = codes "Bearer s"; machine_id = codes "m_1" }

agent_uninstall-IsClosed_example :
    IsClosed draws.renames hub_db.accounts
      (codes "m_1")
      (tunnels_of hub_db (codes "m_1"))
      (agent_uninstall outside draws false leaving hub_db).0
unfolding agent_uninstall same
agent_uninstall-IsClosed_example =
    agent_uninstall-IsClosed outside draws leaving
      (record machine { agent_token_hash = some secret_hash }) hub_db refl refl

-- The hub before any command is queued.
abbrev idle_db : Db
idle_db = record hub_db { commands = [] }

abbrev ordered : Db
ordered = (admin_update_agent updates (codes "ann") 510 (some (codes "c_2")) (codes "m_1") hub_db).0

Turns-IsCalm_example :
    IsCalm (codes "m_1") 540 (agent_heartbeat outside (record call { now = 540 }) ordered).0
unfolding same is_update
Turns-IsCalm_example =
    Turns-IsCalm (codes "m_1") 500 540 hub_db
      (agent_heartbeat outside (record call { now = 540 }) ordered).0
      (Turns.turn 500 510 540 hub_db ordered _ (omega arith)
        (orders updates (codes "ann") 510 (some (codes "c_2")) (codes "m_1") hub_db)
        (Turns.turn 510 540 540 ordered _ _ (omega arith)
          (beats outside (record call { now = 540 }) ordered) (none_left 540 _)))
      (record { unique = refl; one = omega arith })

abbrev row : HostRow
row = record {
  id = codes "m_1";
  slug = codes "box-1";
  target_user = [];
  remote_port = pos 9160;
  proxyjump_alias = codes "hub";
  raw_json = codes "{}";
}

abbrev config_text : Text
config_text =
    unlines (
      head_lines outside.options_of (codes "hub")
      ++ host_lines outside.options_of (codes "hub") row)

generated : generate_ssh_config outside.options_of (codes "hub") hub_db ≡ ok config_text
unfolding generate_ssh_config same
generated = refl

generate_ssh_config_hosts_example :
    (select (is_host_line outside.options_of (codes "hub")) (split b'\n' config_text)
      ≡ map (λ r. codes "Host " ++ r.slug) (host_rows hub_db))
    × (all (listed_row hub_db) (host_rows hub_db) ≡ true)
generate_ssh_config_hosts_example =
    generate_ssh_config_hosts outside.options_of (codes "hub") hub_db config_text refl generated

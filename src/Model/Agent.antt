-- ===== src/Model/Agent.antt =====
-- models.go: what an agent and the hub say to one another in a heartbeat, and the commands that the
-- hub queues for an agent.
use reach.Base.{ℕ, Bool, Option, List, Text}
use reach.Base.Int.{ℤ}
use reach.Model.Words.{CommandStatus, CommandType, DesiredState}

pub record AgentCommandInfo : Type 0 where
  pub id : Text
  pub machine_id : Text
  pub generation : ℕ
  pub kind : CommandType
  pub payload : Option Text
  pub status : CommandStatus
  pub created_at : ℕ
  pub sent_at : Option ℕ
  pub acked_at : Option ℕ
  pub expires_at : Option ℕ
  pub last_error : Option Text

pub record AgentComponentStatus : Type 0 where
  pub state : Text
  pub host : Text
  pub port : ℤ
  pub mode : Text
  pub error : Text

pub record AgentTunnelStatus : Type 0 where
  pub state : Text
  pub remote_port : ℤ
  pub pid : ℤ
  pub transport : Text
  pub connected_since : Text
  pub error : Text

pub record AgentPersistenceStatus : Type 0 where
  pub backend : Text
  pub quality : Text
  pub reboot_safe : Bool
  pub notes : List Text

pub record AgentKeysStatus : Type 0 where
  pub installed_admin_key_fingerprints : List Text
  pub generation : ℕ

pub record AgentObservedState : Type 0 where
  pub agent_state : Text
  pub local_ssh : AgentComponentStatus
  pub tunnel : AgentTunnelStatus
  pub persistence : AgentPersistenceStatus
  pub keys : AgentKeysStatus

pub record SshCompatStatus : Type 0 where
  pub client_version : Text
  pub tunnel_key_type : Text
  pub user_sshd_host_key_type : Text
  pub tunnel_options : List Text
  pub client_options : List Text
  pub supported_authorized_key_types : List Text

pub record AgentCapabilities : Type 0 where
  pub commands : List Text
  pub transports : List Text
  pub can_manage_local_sshd : Bool
  pub can_self_update : Bool
  pub ssh : SshCompatStatus

pub record AgentCommandResult : Type 0 where
  pub command_id : Text
  pub status : Text
  pub message : Text

pub record AgentShutdown : Type 0 where
  pub reason : Text
  pub will_remove_local_files : Bool

pub record AgentHeartbeat : Type 0 where
  pub machine_id : Text
  pub install_id : Text
  pub slug : Text
  pub agent_version : Text
  pub capabilities : AgentCapabilities
  pub applied_generation : ℕ
  pub observed : AgentObservedState
  pub command_results : List AgentCommandResult
  pub shutdown : Option AgentShutdown
  pub transport : Text
  pub transport_state : Text
  pub local_ssh : AgentComponentStatus
  pub tunnel : AgentTunnelStatus
  pub last_error : Text
  pub checked_at : Text

pub record AgentUpdateHint : Type 0 where
  pub available : Bool
  pub current : Text
  pub latest : Text
  pub url : Text
  pub sha256 : Text
  pub required : Bool

pub record AgentCommandDelivery : Type 0 where
  pub id : Text
  pub generation : ℕ
  pub kind : CommandType
  pub payload : Option Text
  pub expires_at : Option ℕ

pub record ProcessTitleConfig : Type 0 where
  pub process_title : Text
  pub process_titles : List Text
  pub rotate_interval : Text

-- An access key as the agent is to install it.
pub record DesiredPubkey : Type 0 where
  pub id : Text
  pub label : Text
  pub fingerprint : Text
  pub public_key : Text

pub record DesiredAgentConfig : Type 0 where
  pub tunnel_enabled : Bool
  pub hub_host : Text
  pub hub_ssh_port : ℕ
  pub remote_port : ℤ
  pub tunnel_user : Text
  pub transport_policy : Text
  pub admin_keys_generation : ℕ
  pub admin_pubkeys : List DesiredPubkey
  pub process_title_config : Option Text

pub record HeartbeatPolicy : Type 0 where
  pub next_interval_seconds : ℕ
  pub offline_after_seconds : ℕ

pub record HeartbeatResponse : Type 0 where
  pub ok : Bool
  pub server_time : ℕ
  pub desired_generation : ℕ
  pub desired_state : DesiredState
  pub heartbeat : HeartbeatPolicy
  pub desired_config : DesiredAgentConfig
  pub commands : List AgentCommandDelivery
  pub update : Option AgentUpdateHint

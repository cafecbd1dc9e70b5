-- ===== src/Model.antt =====
-- models.go: the rows and messages of the hub. A string is a `Text`, a pointer or NULL an `Option`,
-- a timestamp the seconds of its instant (the code writes all of them in one RFC 3339 form, whose
-- order as texts is their order in time), raw JSON the text of it. Strings that the code only
-- compares with fixed words are enumerations.
pub mod Agent
pub mod Words
use reach.Base.{ℕ, Bool, Option, Text}
use reach.Base.Int.{ℤ}
use Words.{
  DesiredState, ObservedState, MachineStatus, TunnelStatus, RequestStatus, UpdatePolicy,
  CleanupState,
}

abbrev pub Time : Type 0
Time = ℕ

pub record Machine : Type 0 where
  pub id : Text
  pub slug : Text
  pub original_slug : Option Text
  pub display_name : Option Text
  pub target_user : Option Text
  pub owner_user_id : Option Text
  pub status : MachineStatus
  pub desired_state : DesiredState
  pub observed_state : ObservedState
  pub desired_generation : ℕ
  pub update_policy : UpdatePolicy
  pub desired_changed_at : Option Time
  pub desired_changed_by : Option Text
  pub cleanup_state : Option CleanupState
  pub mode : Option Text
  pub local_port : ℤ
  pub persistence : Option Text
  pub distro : Option Text
  pub arch : Option Text
  pub provision_error : Option Text
  pub created_at : Time
  pub updated_at : Option Time
  pub expires_at : Option Time
  pub disabled_at : Option Time
  pub retired_at : Option Time
  pub process_title_config : Option Text
  pub agent_token_hash : Option Text

pub record Hub : Type 0 where
  pub id : Text
  pub name : Text
  pub public_host : Text
  pub ssh_port : ℕ
  pub proxyjump_alias : Text
  pub api_url : Text
  pub port_start : ℕ
  pub port_end : ℕ
  pub status : Text
  pub created_at : Time

pub record Tunnel : Type 0 where
  pub id : Text
  pub machine_id : Text
  pub hub_id : Text
  pub unix_user : Text
  pub original_unix_user : Option Text
  pub remote_port : ℤ
  pub original_remote_port : Option ℤ
  pub tunnel_pubkey : Text
  pub status : TunnelStatus
  pub last_seen_at : Option Time
  pub created_at : Time
  pub expires_at : Option Time

pub record Request : Type 0 where
  pub id : Text
  pub name : Text
  pub client_secret_hash : Text
  pub status : RequestStatus
  pub invite_code_hash : Option Text
  pub setup_token_hash : Option Text
  pub setup_token_expires_at : Option Time
  pub metadata : Option Text
  pub created_at : Time
  pub expires_at : Time
  pub approved_at : Option Time
  pub denied_at : Option Time

pub record AgentObservation : Type 0 where
  pub machine_id : Text
  pub agent_version : Text
  pub install_id : Text
  pub applied_generation : ℕ
  pub heartbeat_at : Time
  pub agent_state : Text
  pub transport : Text
  pub transport_state : Text
  pub local_ssh_state : Text
  pub local_ssh_error : Option Text
  pub tunnel_state : Text
  pub tunnel_pid : Option ℤ
  pub tunnel_error : Option Text
  pub persistence_backend : Text
  pub persistence_quality : Text
  pub persistence_reboot_safe : Bool
  pub authorized_key_fingerprints : Text
  pub last_error : Option Text
  pub raw_json : Text

pub record HubObservation : Type 0 where
  pub tunnel_id : Text
  pub machine_id : Text
  pub probe_state : Text
  pub last_probe_at : Time
  pub last_success_at : Option Time
  pub probe_error : Option Text

-- ===== src/Model/Words.antt =====
-- The fixed words that the hub stores in its status columns.
use mathlib.Core.Bool.{Bool, true, false}

-- models.go: `DesiredActive` and the others.
pub data DesiredState : Type 0 where
  active disabled retiring retired : DesiredState

-- models.go: `ObservedUnknown` and the others.
pub data ObservedState : Type 0 where
  unknown online degraded offline gone : ObservedState

-- machines.status
pub data MachineStatus : Type 0 where
  provisioning failed disabled retiring retired : MachineStatus
  observed : ObservedState → MachineStatus

-- tunnels.status
pub data TunnelStatus : Type 0 where
  pending offline online disabled retired failed : TunnelStatus

-- requests.status
pub data RequestStatus : Type 0 where
  pending approved denied expired provisioning provisioned : RequestStatus

-- machines.update_policy
pub data UpdatePolicy : Type 0 where
  manual auto disabled : UpdatePolicy

-- machines.cleanup_state
pub data CleanupState : Type 0 where
  pending complete server_only : CleanupState

-- agent_commands.status
pub data CommandStatus : Type 0 where
  pending sent acked failed : CommandStatus

-- agent_commands.type
pub data CommandType : Type 0 where
  sync_keys start_tunnel stop_tunnel uninstall update_agent : CommandType

unfoldable pub is_pending : RequestStatus → Bool
is_pending RequestStatus.pending = true
is_pending _ = false

unfoldable pub is_approved : RequestStatus → Bool
is_approved RequestStatus.approved = true
is_approved _ = false

unfoldable pub is_provisioning : RequestStatus → Bool
is_provisioning RequestStatus.provisioning = true
is_provisioning _ = false

-- `status NOT IN ('disabled','retired','failed')`
unfoldable pub is_usable : TunnelStatus → Bool
is_usable TunnelStatus.disabled = false
is_usable TunnelStatus.retired = false
is_usable TunnelStatus.failed = false
is_usable _ = true

unfoldable pub is_retired_tunnel : TunnelStatus → Bool
is_retired_tunnel TunnelStatus.retired = true
is_retired_tunnel _ = false

unfoldable pub is_disabled_tunnel : TunnelStatus → Bool
is_disabled_tunnel TunnelStatus.disabled = true
is_disabled_tunnel _ = false

unfoldable pub is_online : ObservedState → Bool
is_online ObservedState.online = true
is_online _ = false

unfoldable pub is_active : DesiredState → Bool
is_active DesiredState.active = true
is_active _ = false

-- `desired_state` retiring or retired
unfoldable pub is_leaving : DesiredState → Bool
is_leaving DesiredState.retiring = true
is_leaving DesiredState.retired = true
is_leaving _ = false

-- `observed_state IN ('online','degraded')`
unfoldable pub is_reachable : ObservedState → Bool
is_reachable ObservedState.online = true
is_reachable ObservedState.degraded = true
is_reachable _ = false

unfoldable pub same_observed : ObservedState → ObservedState → Bool
same_observed ObservedState.unknown ObservedState.unknown = true
same_observed ObservedState.online ObservedState.online = true
same_observed ObservedState.degraded ObservedState.degraded = true
same_observed ObservedState.offline ObservedState.offline = true
same_observed ObservedState.gone ObservedState.gone = true
same_observed _ _ = false

unfoldable pub is_auto : UpdatePolicy → Bool
is_auto UpdatePolicy.auto = true
is_auto _ = false

unfoldable pub never_updates : UpdatePolicy → Bool
never_updates UpdatePolicy.disabled = true
never_updates _ = false

-- `status IN ('pending','sent')`
unfoldable pub is_open : CommandStatus → Bool
is_open CommandStatus.pending = true
is_open CommandStatus.sent = true
is_open _ = false

unfoldable pub is_update : CommandType → Bool
is_update CommandType.update_agent = true
is_update _ = false

unfoldable pub is_sent : CommandStatus → Bool
is_sent CommandStatus.sent = true
is_sent _ = false

-- ===== src/Api/Agents/Delivery.antt =====
-- api.go: when `pendingCommands` waits, and what that does to the update that an administrator orders.
use reach.Api.Agents.Messages.{Polled, ready, waits}
use reach.Api.Updates.{Updates}
use reach.Base.{◌≡◌, Bool, true, false, []}
use reach.Model.Agent.{AgentCommandInfo}

-- A call waits where some command of the machine is pending or sent and not expired; where none is, it
-- delivers none.
abbrev pub PolledSpec : Bool → Polled → Type 0
PolledSpec due (ready cmds) = (due ≡ false) × (cmds ≡ [])
PolledSpec due waits = due ≡ true

abbrev every : AgentCommandInfo → Bool
every c = true

-- ===== src/Provisioner.antt =====
-- provisioner.go: the machines of the hub, their tunnels and what is observed of them.
pub mod Ports
pub mod Slugs
pub mod Accounts
pub mod Retire
pub mod Repair
pub mod Commands
pub mod Desired
pub mod Observed
pub mod Titles
pub mod Create

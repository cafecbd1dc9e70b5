-- ===== src/Api.antt =====
-- api.go: the handlers that keep the requests of clients, and the check of a client's metadata.
pub mod Json
pub mod Requests
pub mod Provision
pub mod History
pub mod Register
pub mod SshConfig
pub mod Updates
pub mod Agents
pub mod Admin

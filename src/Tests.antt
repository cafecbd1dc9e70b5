-- ===== src/Tests.antt =====
-- Concrete inputs: the theorems applied to them, and runs of the definitions.
mod Data
mod Frames
mod Names
mod Machines
mod Clients
mod Agents
mod Streams
mod Sessions
mod Repair

-- ===== src/Tests.antt =====
-- Runs of the model, and each theorem applied to them.
mod Libraries
mod Lines
mod Completions
mod Sessions
mod Handlers
mod Servers
mod Connections
mod Commands

-- ===== src/Tests.antt =====
-- Concrete parameters, and the properties applied to concrete inputs.
mod Toy
mod Clients
mod Controller
mod Daemon
mod Mgmt
mod Sessions
mod Create
mod Added
mod Tool
mod Absence
mod Database
mod Validator
mod Tools

-- ===== src/Tools.antt =====
-- tools: the command line programs.
pub mod AddRr
pub mod CreateZone
pub mod Daemon
pub mod Dig
pub mod Manage
pub mod Update

-- ===== src/Daemon.antt =====
-- src/daemon: zones, resource record sets, the database and the name server.
pub mod ConfigFile
pub mod Zone
pub mod Rrset
pub mod Sqlite
pub mod DbMgr
pub mod NameServer
pub mod RrsetFactory

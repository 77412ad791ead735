-- ===== src/Daemon/DbMgr.antt =====
-- src/daemon/db-mgr.hpp, src/daemon/db-mgr.cpp. Each method is an action on the database that may
-- throw; a zone or a record set that it changes comes back as a result. The file and connection
-- handling of `open` and `close` and the CREATE statements are not modelled.
pub mod Names
pub mod Zones
pub mod Rrsets
pub mod Reads
pub mod Sound

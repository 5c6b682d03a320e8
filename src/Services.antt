-- ===== src/Services.antt =====
-- services/: the libraries that the system's services are made of.
pub mod Supervisor
pub mod Update
pub mod Manager
pub mod Version
pub mod Txn
pub mod Namespace

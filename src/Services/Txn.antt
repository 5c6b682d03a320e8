-- ===== src/Services/Txn.antt =====
-- services/txn.c: snapshots of up to five files in two banks of sectors, and the records that commit
-- them. The hash, sf_sha256, is a parameter of the definitions.
pub mod Paths
pub mod Bank
pub mod Device
pub mod Mount
pub mod Commit
pub mod Table
pub mod Decoding
pub mod Slots
pub mod Writing
pub mod Recovery
pub mod Crash
pub mod Runs
pub mod Files
pub mod Tears
mod Tests

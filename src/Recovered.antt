-- ===== src/Recovered.antt =====
-- recovered/: the earlier generation of the system that the repository keeps.
pub mod Memory
pub mod Net

-- ===== src/Datalayer.antt =====
-- pkg/epp/datalayer: the order in which the data producers run.
pub mod DataGraph
pub mod Dependencies

-- ===== src/Registry.antt =====
-- pkg/epp/flowcontrol/registry: the resources of the flow registry and their statistics.
pub mod Config
pub mod FlowRegistry
pub mod Leasing
pub mod ManagedQueue
pub mod Shard

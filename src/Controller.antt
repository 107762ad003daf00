-- ===== src/Controller.antt =====
-- pkg/epp/flowcontrol/controller: the items, what a processor sees of its shard, and the processor.
pub mod FlowItem
pub mod Shard
pub mod Processor

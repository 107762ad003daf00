-- ===== src/Eviction.antt =====
-- pkg/epp/flowcontrol/eviction, and its policies in framework/plugins/flowcontrol/eviction.
pub mod Heap
pub mod Policies
pub mod Queue

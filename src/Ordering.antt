-- ===== src/Ordering.antt =====
-- pkg/epp/framework/plugins/flowcontrol/ordering: the policies that order the items of a queue.
pub mod StrictWeak
pub mod ByTime
pub mod SloDeadline

-- ===== src/Queue.antt =====
-- pkg/epp/flowcontrol/framework/plugins/queue: the implementations of SafeQueue.
pub mod Bytes
pub mod MaxMinHeap
pub mod Contract
pub mod ListQueue

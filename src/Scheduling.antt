-- ===== src/Scheduling.antt =====
-- pkg/epp/scheduling, and the plugins of pkg/epp/framework/plugins/scheduling that it runs by default.
pub mod Profile
pub mod MaxScorePicker
pub mod Scheduler
pub mod Disaggregation

-- ===== src/Fairness.antt =====
-- pkg/epp/framework/plugins/flowcontrol/fairness: the policies that choose a flow of a priority band.
pub mod RoundRobin
pub mod GlobalStrict

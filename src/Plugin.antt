-- ===== src/Plugin.antt =====
-- agents/plugin_contract.py: the contract of a driving algorithm that is plugged in. Checks is what
-- is asked of its capability, of an observation and of a control; Identity is how a plugin is
-- identified; Executor is AlgorithmPluginExecutor; the others say what holds of it.
pub mod Checks
pub mod Identity
pub mod Executor
pub mod Control
pub mod Cases
pub mod FailClosed
pub mod Contained
pub mod Total
pub mod Frames

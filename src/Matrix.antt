-- ===== src/Matrix.antt =====
-- runtime/experiment_matrix.py: the runs that an experiment matrix asks for, and whether a set of
-- reports covers them.
pub mod Keys
pub mod Groups
pub mod Checks
pub mod Plan
pub mod Coverage
pub mod Build

-- ===== src/Tests.antt =====
-- Runs of the model on concrete inputs, and the theorems at such inputs.
mod Sample
mod Exchange
mod Histories
mod Comparisons
mod Conflicts
mod Jobs
mod Criteria
mod Matrix
mod Plans
mod Driver
mod Observation
mod Evaluation
mod Actors
mod Bridge
mod Plugin
mod Report

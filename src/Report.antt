-- ===== src/Report.antt =====
-- metrics/report.py: the summary of the metric rows of a run, and the closed-loop report. Events,
-- Numbers, Durations and Actors are the functions of the summary; what holds of a report is in
-- Passed. Collector and Comparison are metrics/collector.py and metrics/comparison.py.
pub mod Events
pub mod Numbers
pub mod Durations
pub mod Actors
pub mod Build
pub mod Collector
pub mod Comparison

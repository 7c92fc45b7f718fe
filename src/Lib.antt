-- ===== src/Lib.antt =====
-- ClosedLoopBench runs driving algorithms in closed loop on reconstructed scenes and judges the runs.
-- This library models the parts of it that decide: the shared exchange by which projects hand each
-- other messages, artifacts and jobs; the experiment matrix that plans runs and tells whether reports
-- cover the plan; the criteria by which a report passes or fails; and one tick of a driving
-- algorithm, with the observation that it is given. A matrix becomes evaluation
-- requests, which travel as messages of the exchange; the runs that they cause give reports, each
-- judged by its criteria, and the reports of a plan are compared only when they cover it.
--
-- Base, with children: names of the libraries, Boolean tests, lists, sorting, decimal texts and
--   Outcome, the result of a Python call (a value or an exception; of an exception's text the fixed
--   part is kept).
-- Json: documents as Python holds them. Float arithmetic is a parameter; an int is unbounded.
-- Files: the part of pathlib, os and shutil that is used, on directories that hold plain files.
-- Exchange (adapters/shared_message_store.py): Segment is _safe_segment, _identity and
--   _contained_artifact; Reading is _idempotency_path and _validate_idempotency; Artifact is
--   validate_artifact_on_disk, _artifact_references and _validate_document; Message is load_message and
--   list_messages; Job is the checks of claim_job and complete_job with load_job_claim; Stage is the
--   staged creation of a directory that the writers share; Writes is publish_message, publish_artifact,
--   claim_job and complete_job. A writer takes one Turn for each critical section: the name that
--   uuid.uuid4 gives, and what other workers do to the files between the writer's last look and its
--   rename. History is any number of such calls one after the other. The SceneExchangeContracts
--   validators and the codecs are in Exchange.Platform.
-- Criteria (metrics/criteria.py): evaluate_report and all it calls; its children say what a verdict
--   means.
-- Matrix (runtime/experiment_matrix.py): Keys is the hashing and comparing of run keys, Groups the dict
--   of rows, Checks is _validate_matrix, Plan is _request and _run_id, Build is build_experiment_plan,
--   Coverage is evaluate_experiment_coverage.
-- Driver (agents/tcp_runtime_adapter.py): one tick of a driving algorithm; the backend is any function
--   from an observation to a control or an exception, and does not change the observation.
-- Observation (agents/ego_observation.py): the aggregator of one tick's channels, whose state is the
--   dict of samples; a blocked build keeps its reason and the detail.
-- Evaluation (adapters/evaluation_protocol.py): the result message that answers an evaluation request
--   with the report of its run; the clock format and the validators are an Environment.
-- Actors (actors/closure_levels.py, style_profiles.py and policy_config.py): the policy of an actor.
-- Bridge (agents/ros2_tcp_bridge.py): one tick of the bridge, on Observation and Driver.
-- Report (metrics/report.py, metrics/collector.py, metrics/comparison.py): Collector makes the rows of a
--   run, tick by tick; Comparison puts the reports of several algorithms side by side;
--   Events, Numbers, Durations and Actors are the functions of the summary; Build is
--   build_closed_loop_report, which has Criteria judge the summary.
-- Plugin (agents/plugin_contract.py): Checks is validate_capability, validate_observation,
--   validate_control and their helpers, Identity is build_plugin_identity, Executor is
--   AlgorithmPluginExecutor with initialize, reset, predict and close. What the plugin answers to a call,
--   or raises, is an argument, and so is the time that it takes.
-- Tests: runs on concrete inputs, and the theorems at such inputs.
--
-- All functions are structurally recursive; no fuel is used. Not modelled: symbolic links below the
-- exchange root (the resolve checks of _rooted), the memory and the time that a call takes, and the
-- parts of the repository that talk to CARLA, ROS 2, NuRec or a renderer or that write OpenDRIVE and
-- OpenSCENARIO files. An int that is too large for a float raises OverflowError where Driver, judge of
-- Criteria and the checks of Plugin convert it; elsewhere, as in Report, Observation and Evaluation,
-- ints are taken to convert.
pub mod Base
pub mod Json
pub mod Files
pub mod Exchange
pub mod Criteria
pub mod Matrix
pub mod Driver
pub mod Observation
pub mod Evaluation
pub mod Actors
pub mod Bridge
pub mod Plugin
pub mod Report
pub mod Tests

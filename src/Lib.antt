-- ===== src/Lib.antt =====
-- Infra Loop KDA: the control plane in tools/k3.
--
-- The control plane keeps the records of an optimization effort and runs commands for it. A campaign
-- (campaign.py) collects candidates and moves through its states; the lifecycle of a task
-- (lifecycle.py) says whether a loop may start; tuning.py expands a parameter grid. A run
-- (runner.py) is bound to the trees that were prepared for its task, gets a command, a place in a
-- pipeline, and a directory below the task, whose path is checked (paths.py). A supervisor process
-- (supervise.py) spawns the command, forwards a cancellation and records how the command ended in a
-- status file; the runner reads that file, asks whether the process that it started still lives
-- (util.py), and judges apart from that whether the artifacts on the disk are complete evidence.
-- gitq.py checks an archive of a commit before it is extracted. An agent session (agent.py) plans a
-- start, takes the task's lock, launches the writer behind a PATH of checked binaries, and is looked
-- at, stopped and resumed through the record that it left.
--
-- Base: numbers, texts, lists and outcomes. An exception is an `Outcome` with the class and, for the
-- project's own exceptions, the first part of the message.
-- Json: the JSON documents, with Python's dict operations (`get`, `put`, `set_default`), truth, `str`,
-- `repr` and `int` on them. Floating-point numbers are left out; `repr` is exact on ASCII texts.
-- Json/Checks has the tests that the validators share.
-- Campaign: tools/k3/campaign.py, `new`, `validate`, `transition`, `add_candidate`, `load`, `save`. An
-- operation takes a record and the time of day; `add_candidate` returns the candidate, which it
-- changes in place, beside its outcome. `Reachable` is what the operations can build.
-- Lifecycle: tools/k3/lifecycle.py, `start_blockers`, `require_startable`, `describe`, `base_commit`.
-- Tuning: tools/k3/tuning.py, `validate_manifest`, `expand`, `load`; the hash of a configuration
-- (`util.sha256_json`) is an argument.
-- Archive: tools/k3/gitq.py, `_link_escapes` and the loop of `_safe_extract`.
-- Paths: tools/k3/paths.py, `safe_relative`, `contains_symlink`, `safe_join`. A path is the list of its
-- components; the links of the file system are an argument. Paths/Normal is `os.path.normpath`.
-- Config: tools/k3/config.py, `find_placeholders`, `task_entry`, `task_dir`, `active_task_id`, and in
-- Settings `_merge_defaults` and `runner_settings`.
-- Process: tools/k3/util.py, `process_matches`; what `ps` and `kill` say of a pid is an argument. Its
-- `AttributeError` is one of its answers, which its callers take as no match.
-- Lock: tools/k3/util.py, `FileLock`, over the path of the lock file.
-- Supervise: tools/k3/supervise.py, `main`. The rounds of the polling loop are a list: the signals that
-- arrived, the answer of `poll`, the clock. A list that ends before the child does gives `none`.
-- Runner: tools/k3/runner.py. RunId has `validate_run_id` and `resolve_run_id`, Dirs has `run_dir` and
-- `reserve_run_dir`, Baseline has `verify_baseline_integrity` and `resolve_roots`, Command has
-- `builtin_commands`, `expected_artifacts` and `resolve_command`, Pipeline has `build_stages` and the
-- choice of the adapter that manages a run, Inputs has `execution_inputs`, and Plan joins these in
-- `plan` and the gate of `start`. Adapter has
-- `LocalCommandAdapter.status` and `cancel` and the completion test of `runner.status`; Completion
-- joins the supervisor's records with what the runner makes of them. Evidence has `artifact_report`
-- and what it calls; the files of a report directory are an argument, with size, hash and document.
-- Toolchain: tools/k3/toolchain.py, `read_frontmatter` and `_version_line`, with `str.splitlines`.
-- Agent: tools/k3/agent.py. Session has `_session_state`, Claim `_acquire_task_lock`, Argv the prompt
-- and the command lines, Loop `_read_loop_dir` and `_loop_state`, Paths `resolve_toolchain_paths`, Shim
-- `build_shim_dir` and `verify_shim`, Environment `build_env`, `redact_env` and the declared variables;
-- `plan` is in the module of its name, and Start, Resume, Status and Stop have the four commands. What
-- git, PATH, the disk, the processes and a spawn answer are arguments, one for each moment at which
-- the code asks, and so is what each write after a spawn returns or raises.
-- Overlay: tools/k3/overlay.py, `build`, `verify` and `resolve_plugin_dir`, with `Edit.apply` in Anchor.
-- A plugin is a function from paths to texts; the list of edits, the guard's text, the hashes and the
-- text of the patch are arguments. The pointer file and the staging directory are left out.
--
-- No definition runs on fuel, but for the digits of a number, which get one round more than the
-- number: the loops follow the documents, the paths and the rounds. The polling loop's rounds and
-- the answers while a group drains are finite lists, as long as one likes.
--
-- Not modelled: the commands that call git, the toolchain discovery, exports and
-- the command line, which are mostly I/O; the site adapter; the benchmarks and the precision tools,
-- which compute on floating-point tensors; the signal handler's installation and the writes of files
-- themselves.
pub mod Agent
pub mod Archive
pub mod Base
pub mod Campaign
pub mod Config
pub mod Json
pub mod Lifecycle
pub mod Lock
pub mod Overlay
pub mod Paths
pub mod Process
pub mod Runner
pub mod Supervise
pub mod Toolchain
pub mod Tuning

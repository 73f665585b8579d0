-- ===== src/Lib.antt =====
-- The core of the Aspect CLI (`aspect`), which runs Bazel for its users.
--
-- The program and this model. Before each run of Bazel the CLI absorbs the `.bazelrc` files into a run
-- command (crates/bazelrc), which decides the flags that Bazel gets. While Bazel runs, its build events
-- are redacted, fanned out to subscribers, and uploaded to a BES backend by a sink that keeps the unacked
-- events for a replay (crates/axl-runtime/src/engine/bazel).
--
-- Bazelrc models crates/bazelrc/src:
--   * Bazelrc/Preprocess is `process` of preprocess.rs: content to trimmed lines;
--   * Bazelrc/Tokenize is `tokenize` of tokenize.rs, a state machine over the characters of a line;
--   * Bazelrc/Options is the data of lib.rs (`RcOption`, `BazelRC`, `BazelRcError`) with the operations
--     that need no expansion: `options_for`, `blank`, `push_flag`, `merge`, `source_of`;
--   * Bazelrc/Parse is `parse_file` of parse.rs: one file, its imports and version-gated imports;
--   * Bazelrc/Discover is `discover_rc_files` of discover.rs, on Unix;
--   * Bazelrc/Load is `BazelRC::new`, which discovers the files, parses them and adds the flags;
--   * Bazelrc/Expand is expand.rs: `--config=` flags are replaced by the sections of the config;
--   * Bazelrc/Query is the value queries of lib.rs and the partition into overrides and flags;
--   * Bazelrc/Resolve is version gating, the startup flags and `resolve_for_command`.
-- Redaction models crates/axl-runtime/src/engine/bazel/stream/redaction.rs, which takes secrets out of
-- the events and of command lines that are shown: the flags in Redaction.antt, the globs and the allowlist
-- of variables in Redaction/Glob and Redaction/AllowList, `redact_event` in Redaction/Events.
-- Broadcaster models stream/broadcaster.rs beside it, which hands every event to the subscribers; the steps
-- of the threads that share it are in Broadcaster/Laws.
-- Sink models sink/retry.rs: Sink/RetryBuffer is `RetryBuffer`, and Sink/Scalars parses sizes and
-- durations, computes the backoff and tells which errors are retried. Sink/Reconnect is the loop of `work`
-- in sink/grpc.rs that calls `drive_stream` again after a failure, with what `drive_stream` returns given.
-- Sink/Stream and Sink/Stream/Select are `drive_stream`: the entry sent ahead, the opening, the replay and
-- the arms of `select!` with their guards and deadlines. Sink/Upload is the whole of `work`, which
-- composes the two with the lifecycle calls. What the backend, the clock and the producer do is a script,
-- one arm after the other; an arm whose guard is false is not taken, and a script that ends leaves the
-- stream running.
-- Loader models crates/axl-runtime/src/eval: Loader.antt is `join_confined`, Loader/LoadPath and
-- Loader/Sanitize are load_path.rs, which checks and sorts the text of a `load`, and Loader/Modules is
-- `AxlLoader` of load.rs, which finds the file in a module, detects cycles and keeps what was loaded.
-- The evaluator of Starlark is a parameter: what a file loads in order, and whether it fails then.
-- Names models crates/axl-runtime/src/engine/names.rs, the rules for names and their conversion into
-- names of commands. Names/Metadata is what task.rs and feature.rs beside it do with them: `export_as`
-- and `resolve_task_metadata`. Names/Args is `Arg` of arg.rs, the definition of an argument.
-- Trace models crates/aspect-cli/src/trace_buffer.rs, which keeps spans and logs until exporters are
-- attached: Trace.antt is `install_late` and `export`, for both kinds, with the two ways to evict, and the
-- steps of a system in which calls take the lock and make their deliveries after it is released, in any
-- order.
-- HealthCheck models crates/axl-runtime/src/engine/bazel/health_check.rs, which probes a Bazel server and
-- kills one that holds its lock, and Sink/Handle models `BuildEventSink` of build.rs beside it, the handle
-- that a program binds to a build and waits for. Broadcaster/Iterator is `BuildEventIter` of the same
-- file, by which a program reads the events.
--
-- Conventions. A text is a list of Unicode code points. A `HashMap` is an association list with
-- distinct keys (Base/Dict); no operation that is modelled reads its order. The file system, the
-- environment and the crates `semver`, `serde_json` and `rand` are parameters: functions or records of
-- them. A canonical path is what `canonicalize` answers. Sizes and indices are natural numbers without a
-- bound, since they count items in memory; where a number can be large by itself (a size, a duration, a
-- delay) its 64 bits are written out. The lower case of globs and of the names they are matched with is a
-- parameter, since it stands on the tables of Unicode; in reserved names, in sizes and durations and in
-- names of variables only ASCII letters have a case.
--
-- Fuel. `parse_file` takes fuel for the depth of imports, and `expand_args` for the depth of configs. An
-- import chain and a config chain hold distinct names, so more fuel than there are canonical paths,
-- or names of configs, is enough. `eval_module` takes fuel for the depth of nested loads: more than there
-- are files not in evaluation is enough. A loop over an iterator takes more fuel than what its
-- subscription receives.
--
-- Not modelled: the rendering of `announce` and the Starlark methods of crates/bazelrc, the event
-- streams, the child process of a build, the launcher, authentication, the phases of AXL, the values of
-- its engine and its bindings, which are planned or pure I/O.
pub mod Base
pub mod Bazelrc
pub mod Broadcaster
pub mod HealthCheck
pub mod Loader
pub mod Names
pub mod Redaction
pub mod Sink
pub mod Trace

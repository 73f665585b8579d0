-- ===== src/Sink/Handle.antt =====
-- `BuildEventSink` of crates/axl-runtime/src/engine/bazel/build.rs: the handle that an AXL program holds of a
-- sink. What a worker ends with is given to `wait`. The program calls a handle from one thread, so each
-- call is a step; the thread of the worker is started by a bind and joined by a wait.
pub mod Protocol
use aspect_cli.Base.{
  ℕ, ◌+◌, Bool, true, false, ◌&&◌, Option, none, some, List, [], ◌∷◌, ◌++◌, ltb, Text, text, ◌⊎◌,
  inl, inr,
}

-- `SinkConfig`, without what is only passed on
pub data SinkConfig : Type 0 where
  grpc : Text → SinkConfig
  file : Text → SinkConfig

pub data SinkLive : Type 0 where
  grpc_join file_signal : SinkLive

pub data SinkPhase : Type 0 where
  idle : SinkPhase
  live : SinkLive → SinkPhase

pub record SinkOutcomeState : Type 0 where
  pub failed : Bool
  pub error : Option Text
  pub times_bound : ℕ
  pub events_sent : ℕ
  pub events_acked : ℕ

pub record BuildEventSink : Type 0 where
  pub config : SinkConfig
  pub phase : SinkPhase
  pub outcome : SinkOutcomeState

-- the counts of `SinkStats`
pub record Counts : Type 0 where
  pub sent : ℕ
  pub acked : ℕ

-- the worker of a gRPC sink: its counts and its error, or a panic
pub data Joined : Type 0 where
  returned : Counts → Option Text → Joined
  panicked : Joined

pub data BindError : Type 0 where
  wrong_kind still_live : BindError

unfoldable pub new : SinkConfig → BuildEventSink
new config = record {
  config = config;
  phase = idle;
  outcome = record {
    failed = false;
    error = none;
    times_bound = 0;
    events_sent = 0;
    events_acked = 0;
  };
}

-- behind the check of the kind
abbrev pub bind_as : SinkLive → BuildEventSink → SinkPhase → BindError ⊎ BuildEventSink
bind_as worker sink (live other) = inl still_live
bind_as worker sink idle = inr (record {
  config = sink.config;
  phase = live worker;
  outcome = record {
    failed = false;
    error = none;
    times_bound = sink.outcome.times_bound + 1;
    events_sent = sink.outcome.events_sent;
    events_acked = sink.outcome.events_acked;
  };
})

abbrev pub bind_grpc_with : BuildEventSink → SinkConfig → BindError ⊎ BuildEventSink
bind_grpc_with sink (grpc uri) = bind_as grpc_join sink sink.phase
bind_grpc_with sink (file path) = inl wrong_kind

unfoldable pub bind_grpc : BuildEventSink → BindError ⊎ BuildEventSink
bind_grpc sink = bind_grpc_with sink sink.config

abbrev pub bind_file_with : BuildEventSink → SinkConfig → BindError ⊎ BuildEventSink
bind_file_with sink (file path) = bind_as file_signal sink sink.phase
bind_file_with sink (grpc uri) = inl wrong_kind

unfoldable pub bind_file : BuildEventSink → BindError ⊎ BuildEventSink
bind_file sink = bind_file_with sink sink.config

abbrev pub no_events : Counts
no_events = record { sent = 0; acked = 0 }

abbrev pub is_some : Option Text → Bool
is_some none = false
is_some (some e) = true

-- the outcome of a worker with an error or none
abbrev pub settled : BuildEventSink → Counts → Option Text → BuildEventSink
settled sink stats error = record {
  config = sink.config;
  phase = idle;
  outcome = record {
    failed = is_some error;
    error = error;
    times_bound = sink.outcome.times_bound;
    events_sent = stats.sent;
    events_acked = stats.acked;
  };
}

abbrev pub joined : BuildEventSink → Joined → BuildEventSink
joined sink (returned stats error) = settled sink stats error
joined sink panicked = settled sink no_events (some (text "sink worker thread panicked"))

-- the worker that is taken out of the handle is joined, or waited for
abbrev pub wait_from : Joined → Option Text → BuildEventSink → SinkPhase → BuildEventSink
wait_from worker signal sink idle = sink
wait_from worker signal sink (live grpc_join) = joined sink worker
wait_from worker signal sink (live file_signal) = settled sink no_events signal

unfoldable pub wait : Joined → Option Text → BuildEventSink → BuildEventSink
wait worker signal sink = wait_from worker signal sink sink.phase

abbrev pub is_idle : SinkPhase → Bool
is_idle idle = true
is_idle (live worker) = false

-- the attribute `done`
unfoldable pub is_done : BuildEventSink → Bool
is_done sink = is_idle sink.phase && ltb 0 sink.outcome.times_bound

-- a call of an AXL program, or of a build that it starts
pub data Call : Type 0 where
  binding_grpc binding_file : Call
  waiting : Joined → Option Text → Call

abbrev pub or_same : BuildEventSink → BindError ⊎ BuildEventSink → BuildEventSink
or_same sink (inl e) = sink
or_same sink (inr bound) = bound

unfoldable pub call : Call → BuildEventSink → BuildEventSink
unfolding bind_grpc bind_file wait
call binding_grpc sink = or_same sink (bind_grpc sink)
call binding_file sink = or_same sink (bind_file sink)
call (waiting worker signal) sink = wait worker signal sink

unfoldable pub calls : List Call → BuildEventSink → BuildEventSink
unfolding call
calls [] sink = sink
calls (c ∷ cs) sink = calls cs (call c sink)

-- ===== src/Sink/HandleTests.antt =====
-- A handle that is bound, waited for, and bound again.
use aspect_cli.Base.{◌+◌, ◌≡◌, refl, none, some, false, List, [], ◌∷◌, text, ◌&&◌, ltb, ◌==◌}
use aspect_cli.Sink.Handle.{
  grpc, Call, binding_grpc, binding_file, waiting, returned, panicked, new, bind_grpc, bind_file,
  wait, call, calls, is_done, live, grpc_join,
}
use aspect_cli.Sink.Handle.Protocol.{
  IsConsistent, calls-IsConsistent, started, ended, workers, calls-is_done,
}

-- the second bind and the second wait change nothing
abbrev twice : List Call
twice =
    binding_grpc
    ∷ binding_grpc
    ∷ binding_file
    ∷ waiting (returned (record { sent = 5; acked = 4 }) (some (text "lost"))) none
    ∷ waiting panicked none
    ∷ binding_grpc
    ∷ []

-- the counts of the first run are those of the handle while the second one runs
counts_are_kept : calls twice (new (grpc (text "grpc://bes"))) ≡ record {
  config = grpc (text "grpc://bes");
  phase = live grpc_join;
  outcome = record {
    failed = false;
    error = none;
    times_bound = 2;
    events_sent = 5;
    events_acked = 4;
  };
}
unfolding calls call bind_grpc bind_file wait new
counts_are_kept = refl

calls-IsConsistent_example : IsConsistent (calls twice (new (grpc (text "grpc://bes"))))
calls-IsConsistent_example = calls-IsConsistent (grpc (text "grpc://bes")) twice

calls-is_done_example :
    (started twice (new (grpc (text "grpc://bes")))
      ≡ ended twice (new (grpc (text "grpc://bes")))
        + workers (calls twice (new (grpc (text "grpc://bes")))))
    × (is_done (calls twice (new (grpc (text "grpc://bes")))) ≡ (
        started twice (new (grpc (text "grpc://bes")))
          == ended twice (new (grpc (text "grpc://bes")))
        && ltb 0 (started twice (new (grpc (text "grpc://bes"))))))
calls-is_done_example = calls-is_done (grpc (text "grpc://bes")) twice

-- ===== src/Sink/Handle/Protocol.antt =====
-- What the calls of an AXL program make of a handle.
use aspect_cli.Base.{
  ℕ, ◌+◌, ◌≡◌, refl, false, ◌&&◌, List, [], ◌∷◌, ltb, ◌⊎◌, inl, inr, arith, ◌==◌, if◌then◌else◌,
}
use aspect_cli.Sink.Handle.{
  SinkConfig, grpc, file, grpc_join, file_signal, SinkPhase, idle, live, SinkOutcomeState,
  BuildEventSink, returned, panicked, BindError, new, bind_grpc, bind_file, wait, is_some, is_idle,
  is_done, Call, binding_grpc, binding_file, waiting, call, calls,
}

-- a worker that is live fits the kind of the handle, and nothing is told of it yet
abbrev pub Fits : SinkConfig → SinkPhase → SinkOutcomeState → Type 0
Fits config idle o = Unit
Fits (grpc uri) (live grpc_join) o = o.failed ≡ false
Fits (grpc uri) (live file_signal) o = ⊥
Fits (file path) (live grpc_join) o = ⊥
Fits (file path) (live file_signal) o = o.failed ≡ false

-- a file has no counts
abbrev pub Counted : SinkConfig → SinkOutcomeState → Type 0
Counted (grpc uri) o = Unit
Counted (file path) o = (o.events_sent ≡ 0) × (o.events_acked ≡ 0)

pub record IsConsistent (s : BuildEventSink) : Type 0 where
  pub fits : Fits s.config s.phase s.outcome
  pub counted : Counted s.config s.outcome
  pub told : s.outcome.failed ≡ is_some s.outcome.error

call-IsConsistent :
    (c : Call) (config : SinkConfig) (phase : SinkPhase) (o : SinkOutcomeState)
    → IsConsistent (record { config = config; phase = phase; outcome = o })
    → IsConsistent (call c (record { config = config; phase = phase; outcome = o }))
unfolding call bind_grpc bind_file wait
call-IsConsistent binding_grpc (grpc uri) idle o h = record {
  fits = refl;
  counted = tt;
  told = refl;
}
call-IsConsistent binding_grpc (grpc uri) (live worker) o h = h
call-IsConsistent binding_grpc (file path) phase o h = h
call-IsConsistent binding_file (file path) idle o h = record {
  fits = refl;
  counted = h.counted;
  told = refl;
}
call-IsConsistent binding_file (file path) (live worker) o h = h
call-IsConsistent binding_file (grpc uri) phase o h = h
call-IsConsistent (waiting worker signal) config idle o h = h
call-IsConsistent (waiting (returned stats error) signal) (grpc uri) (live grpc_join) o h = record {
  fits = tt;
  counted = tt;
  told = refl;
}
call-IsConsistent (waiting panicked signal) (grpc uri) (live grpc_join) o h = record {
  fits = tt;
  counted = tt;
  told = refl;
}
call-IsConsistent (waiting worker signal) (grpc uri) (live file_signal) o h = absurd h.fits
call-IsConsistent (waiting worker signal) (file path) (live grpc_join) o h = absurd h.fits
call-IsConsistent (waiting worker signal) (file path) (live file_signal) o h = record {
  fits = tt;
  counted = (refl, refl);
  told = refl;
}

calls-Consistent_from :
    (cs : List Call) (s : BuildEventSink) → IsConsistent s → IsConsistent (calls cs s)
unfolding calls
calls-Consistent_from [] s h = h
calls-Consistent_from (c ∷ cs) s h =
    calls-Consistent_from cs (call c s) (call-IsConsistent c s.config s.phase s.outcome h)

-- After any calls on a new handle: `failed` is told exactly with an error, a worker that is live is of the
-- kind of the handle and nothing is told of it yet, and a file sink counts no events.
pub calls-IsConsistent :
    (config : SinkConfig) (cs : List Call) → IsConsistent (calls cs (new config))
unfolding new
calls-IsConsistent config cs = calls-Consistent_from cs (new config) (start config)
  where
    start : (config : SinkConfig) → IsConsistent (new config)
    start (grpc uri) = record { fits = tt; counted = tt; told = refl }
    start (file path) = record { fits = tt; counted = (refl, refl); told = refl }

abbrev pub succeeds : BindError ⊎ BuildEventSink → ℕ
succeeds (inl e) = 0
succeeds (inr bound) = 1

abbrev pub workers : BuildEventSink → ℕ
workers s = if is_idle s.phase then 0 else 1

-- whether a call starts a worker, and whether it ends one
abbrev pub starts : Call → BuildEventSink → ℕ
starts binding_grpc s = succeeds (bind_grpc s)
starts binding_file s = succeeds (bind_file s)
starts (waiting worker signal) s = 0

abbrev pub ends : Call → BuildEventSink → ℕ
ends binding_grpc s = 0
ends binding_file s = 0
ends (waiting worker signal) s = workers s

abbrev pub started : List Call → BuildEventSink → ℕ
started [] s = 0
started (c ∷ cs) s = starts c s + started cs (call c s)

abbrev pub ended : List Call → BuildEventSink → ℕ
ended [] s = 0
ended (c ∷ cs) s = ends c s + ended cs (call c s)

-- the account of one call
call_accounts :
    (c : Call) (config : SinkConfig) (phase : SinkPhase) (o : SinkOutcomeState)
    → let s : BuildEventSink = record { config = config; phase = phase; outcome = o } in
      (workers s + starts c s ≡ ends c s + workers (call c s))
      × (o.times_bound + starts c s ≡ (call c s).outcome.times_bound)
unfolding call bind_grpc bind_file wait
call_accounts binding_grpc (grpc uri) idle o = (omega arith, omega arith)
call_accounts binding_grpc (grpc uri) (live worker) o = (omega arith, omega arith)
call_accounts binding_grpc (file path) phase o = (omega arith, omega arith)
call_accounts binding_file (file path) idle o = (omega arith, omega arith)
call_accounts binding_file (file path) (live worker) o = (omega arith, omega arith)
call_accounts binding_file (grpc uri) phase o = (omega arith, omega arith)
call_accounts (waiting worker signal) config idle o = (omega arith, omega arith)
call_accounts (waiting (returned stats error) signal) config (live grpc_join) o =
    (omega arith, omega arith)
call_accounts (waiting panicked signal) config (live grpc_join) o = (omega arith, omega arith)
call_accounts (waiting worker signal) config (live file_signal) o = (omega arith, omega arith)

calls_accounts :
    (cs : List Call) (s : BuildEventSink)
    → (workers s + started cs s ≡ ended cs s + workers (calls cs s))
      × (s.outcome.times_bound + started cs s ≡ (calls cs s).outcome.times_bound)
unfolding calls
calls_accounts [] s = (omega arith, omega arith)
calls_accounts (c ∷ cs) s =
    let (w, t) = call_accounts c s.config s.phase s.outcome in
    let (ws, ts) = calls_accounts cs (call c s) in (omega (arith, w, ws), omega (arith, t, ts))

-- After any calls on a new handle, as many workers were started as were ended, and one more if one is
-- live: a handle never has two, and none is lost. The handle says that it is done exactly if one was
-- started and all are ended.
pub calls-is_done :
    (config : SinkConfig) (cs : List Call)
    → (started cs (new config) ≡ ended cs (new config) + workers (calls cs (new config)))
      × (is_done (calls cs (new config))
          ≡ (started cs (new config) == ended cs (new config) && ltb 0 (started cs (new config))))
calls-is_done config cs =
    let (w, t) = calls_accounts cs (new config) in
    let (w', t') = at_start config cs w t in
    (w', by_phase (calls cs (new config)) (started cs (new config)) (ended cs (new config)) w' t')
  where
    at_start :
        (config : SinkConfig) (cs : List Call)
        → workers (new config) + started cs (new config)
          ≡ ended cs (new config) + workers (calls cs (new config))
        → (new config).outcome.times_bound + started cs (new config)
          ≡ (calls cs (new config)).outcome.times_bound
        → (started cs (new config) ≡ ended cs (new config) + workers (calls cs (new config)))
          × (started cs (new config) ≡ (calls cs (new config)).outcome.times_bound)
    at_start config cs w t =
        let e : workers (new config) ≡ 0 = unfold new in refl in
        let f : (new config).outcome.times_bound ≡ 0 = unfold new in refl in
        (omega (arith, w, e), omega (arith, t, f))

    by_phase :
        (s : BuildEventSink) (n m : ℕ)
        → n ≡ m + workers s
        → n ≡ s.outcome.times_bound
        → is_done s ≡ (n == m && ltb 0 n)
    by_phase s n m w t = unfold is_done in at_phase s.phase w
      where
        at_phase :
            (p : SinkPhase)
            → n ≡ m + (if is_idle p then 0 else 1)
            → (is_idle p && ltb 0 s.outcome.times_bound) ≡ (n == m && ltb 0 n)
        at_phase idle w = ground (arith, w, t)
        at_phase (live worker) w = ground (arith, w)

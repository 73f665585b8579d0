-- ===== src/Sink/Upload/Lifecycle.antt =====
-- How long `retry_lifecycle` keeps on trying.
use aspect_cli.Base.{
  ℕ, ◌+◌, ◌≤◌, ◌<◌, ◌≡◌, refl, ap, ◌∙◌, Bool, true, false, List, [], ◌∷◌, ◌++◌, arith, leb, length,
  All,
}
use aspect_cli.Sink.Scalars.{ClientError, is_retryable, status, deadline_exceeded}
use aspect_cli.Sink.Upload.{
  Attempt, answered, attempt_timed_out, attempt_failed, Call, acknowledged, call_failed, under_way,
  retry_lifecycle,
}

abbrev pub is_over : Call → Bool
is_over acknowledged = true
is_over (call_failed e) = true
is_over (under_way n) = false

-- an attempt after which the call is tried again
abbrev pub IsTemporary : Attempt → Type 0
IsTemporary answered = ⊥
IsTemporary attempt_timed_out = Unit {0}
IsTemporary (attempt_failed e) = is_retryable e ≡ true

-- the error of an attempt
abbrev pub error_of : Attempt → ClientError
error_of answered = status deadline_exceeded
error_of attempt_timed_out = status deadline_exceeded
error_of (attempt_failed e) = e

spent : (max attempt : ℕ) → max ≤ attempt → leb max attempt ≡ true
spent max attempt h = ground arith

some_left : (max attempt : ℕ) → attempt < max → leb max attempt ≡ false
some_left max attempt h = ground arith

temporary_step :
    (max attempt : ℕ) (a : Attempt) (attempts : List Attempt)
    → IsTemporary a
    → attempt < max
    → retry_lifecycle max attempt (a ∷ attempts) ≡ retry_lifecycle max (attempt + 1) attempts
unfolding retry_lifecycle
temporary_step max attempt answered attempts h lt = absurd h
temporary_step max attempt attempt_timed_out attempts h lt = rw (some_left max attempt lt) refl
temporary_step max attempt (attempt_failed e) attempts h lt = rw (h, some_left max attempt lt) refl

last_attempt :
    (max attempt : ℕ) (a : Attempt) (attempts : List Attempt)
    → IsTemporary a
    → attempt ≡ max
    → retry_lifecycle max attempt (a ∷ attempts) ≡ call_failed (error_of a)
unfolding retry_lifecycle
last_attempt max attempt answered attempts h e = absurd h
last_attempt max attempt attempt_timed_out attempts h e =
    rw (spent max attempt (omega (arith, e))) refl
last_attempt max attempt (attempt_failed err) attempts h e =
    rw (h, spent max attempt (omega (arith, e))) refl

after_temporary :
    (max attempt : ℕ) (fails later : List Attempt)
    → All IsTemporary fails
    → attempt + length fails ≤ max
    → retry_lifecycle max attempt (fails ++ later)
      ≡ retry_lifecycle max (attempt + length fails) later
after_temporary max attempt [] later h le =
    let same : attempt ≡ attempt + 0 = omega arith in ap (λ n. retry_lifecycle max n later) same
after_temporary max attempt (a ∷ fails) later (h, hs) le =
    let total : attempt + 1 + length fails ≡ attempt + length (a ∷ fails) = omega arith in
    temporary_step max attempt a (fails ++ later) h (omega (arith, le))
    ∙ (after_temporary max (attempt + 1) fails later hs (omega (arith, le))
        ∙ ap (λ n. retry_lifecycle max n later) total)

answered_now :
    (max attempt : ℕ) (later : List Attempt)
    → retry_lifecycle max attempt (answered ∷ later) ≡ acknowledged
unfolding retry_lifecycle
answered_now max attempt later = refl

-- A lifecycle call that is answered after temporary failures, as many as it may retry or fewer, is
-- acknowledged; if temporary failures use up its retries and one more attempt fails so, the call fails
-- with the error of that attempt.
pub retry_lifecycle-budget :
    (max_retries : ℕ) (few fails later : List Attempt) (last : Attempt)
    → All IsTemporary few
    → length few ≤ max_retries
    → All IsTemporary fails
    → length fails ≡ max_retries
    → IsTemporary last
    → (retry_lifecycle max_retries 0 (few ++ answered ∷ later) ≡ acknowledged)
      × (retry_lifecycle max_retries 0 (fails ++ last ∷ later) ≡ call_failed (error_of last))
retry_lifecycle-budget max_retries few fails later last ks le hs e h = (
  after_temporary max_retries 0 few (answered ∷ later) ks (omega (arith, le))
      ∙ answered_now max_retries (0 + length few) later,
  after_temporary max_retries 0 fails (last ∷ later) hs (omega (arith, e))
      ∙ last_attempt max_retries (0 + length fails) last later h (omega (arith, e)),
)

ends_within :
    (max attempt : ℕ) (attempts : List Attempt)
    → attempt ≤ max
    → max < attempt + length attempts
    → is_over (retry_lifecycle max attempt attempts) ≡ true
unfolding retry_lifecycle
ends_within max attempt [] le lt = absurd (omega (arith, le, lt))
ends_within max attempt (answered ∷ attempts) le lt = refl
ends_within max attempt (attempt_timed_out ∷ attempts) le lt =
    ground (arith, ends_within max (attempt + 1) attempts)
ends_within max attempt (attempt_failed e ∷ attempts) le lt =
    ground (arith, ends_within max (attempt + 1) attempts)

-- A lifecycle call is over after one attempt more than it may retry, however the attempts end.
pub retry_lifecycle_ends :
    (max_retries : ℕ) (attempts : List Attempt)
    → max_retries < length attempts
    → is_over (retry_lifecycle max_retries 0 attempts) ≡ true
retry_lifecycle_ends max_retries attempts lt =
    ends_within max_retries 0 attempts (omega arith) (omega (arith, lt))

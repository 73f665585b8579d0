-- ===== src/Sink/Scalars.antt =====
-- The tuning knobs of crates/axl-runtime/src/engine/bazel/sink/retry.rs: sizes, durations and the backoff.
-- `usize` has 64 bits. Arithmetic wraps around as in the release profile, which has no overflow checks.
pub mod Bounds
use aspect_cli.Base.{
  is_digit, ℕ, zero, suc, ◌+◌, ◌-◌, ◌*◌, ◌%◌, ◌^◌, Bool, true, false, ◌&&◌, Option, none, some,
  List, [], ◌∷◌, map, leb, ◌==◌, if◌then◌else◌, is_empty, any, Text, text, text_eq, trim, to_lower,
}
use aspect_cli.Base.Int.{ℤ, pos, negsuc}

abbrev pub u64_max : ℕ
u64_max = 2 ^ 64 - 1

-- the errors, without their texts
pub data ScalarError : Type 0 where
  empty_string no_leading_number unknown_unit invalid_number value_overflows : ScalarError

pub data Scalar {ℓ} (A : Type ℓ) : Type ℓ where
  parsed : A → Scalar A
  invalid : ScalarError → Scalar A

infixl 5 ◌>>=◌
abbrev pub ◌>>=◌ {ℓ κ} : {A : Type ℓ} {B : Type κ} → Scalar A → (A → Scalar B) → Scalar B
parsed a >>= f = f a
invalid e >>= f = invalid e

-- `find` of the first character that is no digit, and `split_at`
unfoldable pub split_digits : Text → Text × Text
split_digits [] = ([], [])
split_digits (c ∷ s) =
    let (digits, rest) = split_digits s in if is_digit c then (c ∷ digits, rest) else ([], c ∷ s)

abbrev pub with_unit : Text × Text → Scalar (Text × Text)
with_unit ([], rest) = invalid no_leading_number
with_unit (d ∷ digits, rest) = parsed (d ∷ digits, map to_lower (trim rest))

unfoldable pub split_scalar_unit : Text → Scalar (Text × Text)
unfolding split_digits
split_scalar_unit s =
    let t = trim s in if is_empty t then invalid empty_string else with_unit (split_digits t)

-- the number that digits stand for, behind the digits that were read
unfoldable pub digits_value : ℕ → Text → ℕ
digits_value n [] = n
digits_value n (c ∷ s) = digits_value (10 * n + (c - b'0')) s

-- `str::parse` of digits for a 64-bit number
unfoldable pub parse_u64 : Text → Scalar ℕ
unfolding digits_value
parse_u64 digits =
    let n = digits_value 0 digits in if leb n u64_max then parsed n else invalid invalid_number

abbrev is_one_of : Text → List Text → Bool
is_one_of s words = any (text_eq s) words

unfoldable pub unit_multiplier : Text → Scalar ℕ
unit_multiplier unit =
    if is_one_of unit ([] ∷ text "b" ∷ [])
    then parsed 1
    else if is_one_of unit (text "k" ∷ text "kb" ∷ text "kib" ∷ [])
    then parsed 1024
    else if is_one_of unit (text "m" ∷ text "mb" ∷ text "mib" ∷ [])
    then parsed (1024 * 1024)
    else if is_one_of unit (text "g" ∷ text "gb" ∷ text "gib" ∷ [])
    then parsed (1024 * 1024 * 1024)
    else invalid unknown_unit

-- `checked_mul`
unfoldable pub checked_mul : ℕ → ℕ → Scalar ℕ
checked_mul n m = if leb (n * m) u64_max then parsed (n * m) else invalid value_overflows

unfoldable pub parse_byte_size : Text → Scalar ℕ
unfolding split_scalar_unit unit_multiplier parse_u64 checked_mul
parse_byte_size s = do
  parts ← split_scalar_unit s
  multiplier ← unit_multiplier parts.1
  n ← parse_u64 parts.0
  checked_mul n multiplier

-- a `Duration` in nanoseconds
abbrev pub from_millis : ℕ → ℕ
from_millis n = n * 1000000

abbrev pub from_secs : ℕ → ℕ
from_secs n = n * 1000000000

-- the products with 60, 3600 and 86400 are unchecked
unfoldable pub duration_of : ℕ → Text → Scalar ℕ
duration_of n unit =
    if text_eq unit (text "ms")
    then parsed (from_millis n)
    else if text_eq unit (text "s")
    then parsed (from_secs n)
    else if text_eq unit (text "m")
    then parsed (from_secs ((n * 60) % 2 ^ 64))
    else if text_eq unit (text "h")
    then parsed (from_secs ((n * 3600) % 2 ^ 64))
    else if text_eq unit (text "d")
    then parsed (from_secs ((n * 86400) % 2 ^ 64))
    else invalid unknown_unit

unfoldable pub parse_duration : Text → Scalar ℕ
unfolding split_scalar_unit parse_u64 duration_of
parse_duration s = do parts ← split_scalar_unit s; n ← parse_u64 parts.0; duration_of n parts.1

abbrev pub default_retry_max_buffer_bytes : ℕ
default_retry_max_buffer_bytes = 256 * 1024 * 1024

-- the warnings, without their texts
pub data Warning : Type 0 where
  must_be_positive : Warning
  malformed : ScalarError → Warning

abbrev pub budget_of : Scalar ℕ → ℕ × Option Warning
budget_of (invalid e) = (default_retry_max_buffer_bytes, some (malformed e))
budget_of (parsed n) =
    if n == 0 then (default_retry_max_buffer_bytes, some must_be_positive) else (n, none)

unfoldable pub resolve_buffer_bytes_override : Option Text → ℕ × Option Warning
unfolding parse_byte_size
resolve_buffer_bytes_override none = (default_retry_max_buffer_bytes, none)
resolve_buffer_bytes_override (some raw) =
    if is_empty (trim raw)
    then (default_retry_max_buffer_bytes, none)
    else budget_of (parse_byte_size raw)

abbrev pub lesser : ℕ → ℕ → ℕ
lesser a b = if leb a b then a else b

abbrev pub saturating_mul : ℕ → ℕ → ℕ
saturating_mul a b = lesser (a * b) u64_max

-- the upper end of the delay, in nanoseconds; `min_delay` is the minimal delay in nanoseconds
unfoldable pub upper_ns : ℕ → ℕ → ℕ
upper_ns min_delay attempt =
    let m = min_delay % 2 ^ 64 in
    lesser (saturating_mul m (2 ^ lesser attempt 30)) (saturating_mul m 30)

-- `backoff`; `gen_range` is the draw of the crate `rand` from 0 to its argument
unfoldable pub backoff : (ℕ → ℕ) → ℕ → ℕ → ℕ
unfolding upper_ns
backoff gen_range min_delay attempt =
    let upper = upper_ns min_delay attempt in if upper == 0 then 0 else gen_range upper

-- the status codes of gRPC
pub data Code : Type 0 where
  ok cancelled unknown invalid_argument deadline_exceeded not_found already_exists permission_denied
        resource_exhausted failed_precondition aborted out_of_range unimplemented internal
        unavailable data_loss unauthenticated :
      Code

-- `ClientError`
pub data ClientError : Type 0 where
  transport invalid_endpoint : ClientError
  status : Code → ClientError

abbrev pub is_retryable_code : Code → Bool
is_retryable_code unavailable = true
is_retryable_code deadline_exceeded = true
is_retryable_code resource_exhausted = true
is_retryable_code aborted = true
is_retryable_code internal = true
is_retryable_code _ = false

unfoldable pub is_retryable : ClientError → Bool
is_retryable transport = true
is_retryable invalid_endpoint = false
is_retryable (status code) = is_retryable_code code

-- `SinkStats`
pub record SinkStats : Type 0 where
  pub sent : ℕ
  pub acked : ℕ

-- `max(0)`
abbrev pub clamp : ℤ → ℕ
clamp (pos n) = n
clamp (negsuc n) = 0

-- `next_seq - 1`; the code does not reach the least number of an `i64`
abbrev pub before : ℤ → ℤ
before (pos zero) = negsuc 0
before (pos (suc n)) = pos n
before (negsuc n) = negsuc (n + 1)

unfoldable pub from_counters : ℤ → ℤ → SinkStats
from_counters next_seq max_acked = record {
  sent = clamp (before next_seq);
  acked = clamp max_acked;
}

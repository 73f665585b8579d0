-- ===== src/Sink/Scalars/Bounds.antt =====
-- The bounds of sizes and delays.
use native.Mathlib.Nat.{mul-le-mul_right}
use aspect_cli.Base.{
  ℕ, ◌*◌, ◌%◌, ◌^◌, ◌≤◌, ◌<◌, inl, inr, Bool, true, false, Option, none, some, arith, leb, ◌==◌,
  if◌then◌else◌, Bool-cases, leb→le, is_empty, Text, trim,
}
use aspect_cli.Sink.Scalars.{
  Scalar, parsed, invalid, budget_of, parse_byte_size, resolve_buffer_bytes_override, u64_max,
  checked_mul, upper_ns, backoff, lesser, ◌>>=◌, saturating_mul, split_scalar_unit, unit_multiplier,
  parse_u64, default_retry_max_buffer_bytes,
}

-- what holds of a value that is parsed
abbrev pub OnParsed {ℓ κ} : {A : Type ℓ} → (A → Type κ) → Scalar A → Type κ
OnParsed P (parsed a) = P a
OnParsed P (invalid e) = Unit

OnParsed-last :
    {A : Type 0} {B : Type 0} (P : B → Type 0) (m : Scalar A) (f : A → Scalar B)
    → ((a : A) → OnParsed P (f a))
    → OnParsed P (m >>= f)
OnParsed-last P (parsed a) f h = h a
OnParsed-last P (invalid e) f h = tt

checked_mul-fits : (n m : ℕ) → OnParsed (λ k. k ≤ u64_max) (checked_mul n m)
unfolding checked_mul
checked_mul-fits n m = elim (Bool-cases (leb (n * m) u64_max)) [
  | inl fits ↦ rw fits (leb→le (n * m) u64_max fits)
  | inr big ↦ rw big tt
]

-- A size that is parsed fits into 64 bits: no product wraps around.
pub parse_byte_size-fits : (s : Text) → OnParsed (λ n. n ≤ u64_max) (parse_byte_size s)
unfolding parse_byte_size
parse_byte_size-fits s =
    OnParsed-last (λ n. n ≤ u64_max) (split_scalar_unit s) _
      λ parts.
        OnParsed-last (λ n. n ≤ u64_max) (unit_multiplier parts.1) _
          λ multiplier.
            OnParsed-last (λ n. n ≤ u64_max) (parse_u64 parts.0) _
              λ n. checked_mul-fits n multiplier

budget_of-positive :
    (m : Scalar ℕ)
    → OnParsed (λ n. n ≤ u64_max) m
    → (0 < (budget_of m).0) × ((budget_of m).0 ≤ u64_max)
budget_of-positive (invalid e) h = (omega arith, omega arith)
budget_of-positive (parsed n) h = elim (Bool-cases (n == 0)) [
  | inl nothing ↦ rw nothing (omega arith, omega arith)
  | inr some_bytes ↦ rw some_bytes (ground (arith, some_bytes), h)
]

unless_blank :
    (blank : Bool) (m : Scalar ℕ)
    → OnParsed (λ n. n ≤ u64_max) m
    → let r = if blank then (default_retry_max_buffer_bytes, none) else budget_of m in
      (0 < r.0) × (r.0 ≤ u64_max)
unless_blank true m h = (omega arith, omega arith)
unless_blank false m h = budget_of-positive m h

-- Whatever the environment variable says, the budget of the replay buffer is positive and fits into 64
-- bits.
pub resolve_buffer_bytes_override-bounds :
    (raw : Option Text)
    → (0 < (resolve_buffer_bytes_override raw).0)
      × ((resolve_buffer_bytes_override raw).0 ≤ u64_max)
unfolding resolve_buffer_bytes_override
resolve_buffer_bytes_override-bounds none = (omega arith, omega arith)
resolve_buffer_bytes_override-bounds (some raw) =
    unless_blank (is_empty (trim raw)) (parse_byte_size raw) (parse_byte_size-fits raw)

lesser_bounds : (a b : ℕ) → (lesser a b ≤ a) × (lesser a b ≤ b)
lesser_bounds a b = elim (Bool-cases (leb a b)) [
  | inl le ↦ rw le (omega arith, leb→le a b le)
  | inr gt ↦ rw gt (ground (arith, gt), omega arith)
]

scaled : (m e : ℕ) → saturating_mul (m % 2 ^ 64) e ≤ m * e
scaled m e =
    let first = (lesser_bounds ((m % 2 ^ 64) * e) u64_max).0 in
    let wrapped : m % 2 ^ 64 ≤ m = omega arith in omega (arith, first, mul-le-mul_right e wrapped)

upper_ns-bounds :
    (min_delay attempt : ℕ)
    → (upper_ns min_delay attempt ≤ min_delay * 30)
      × (upper_ns min_delay attempt ≤ min_delay * 2 ^ lesser attempt 30)
unfolding upper_ns
upper_ns-bounds min_delay attempt =
    let m = min_delay % 2 ^ 64 in
    let (grown, capped) =
      lesser_bounds (saturating_mul m (2 ^ lesser attempt 30)) (saturating_mul m 30) in
    (
      omega (arith, capped, scaled min_delay 30),
      omega (arith, grown, scaled min_delay (2 ^ lesser attempt 30)),
    )

-- If the draw stays in its range, the delay is at most thirty times the minimal delay, and at most the
-- minimal delay times two to the power of the attempt, which counts up to 30.
pub backoff-bounds :
    (gen_range : ℕ → ℕ) (min_delay attempt : ℕ)
    → ((upper : ℕ) → gen_range upper ≤ upper)
    → (backoff gen_range min_delay attempt ≤ min_delay * 30)
      × (backoff gen_range min_delay attempt ≤ min_delay * 2 ^ lesser attempt 30)
unfolding backoff
backoff-bounds gen_range min_delay attempt in_range =
    elim (Bool-cases (upper_ns min_delay attempt == 0)) [
      | inl nothing ↦ rw nothing (omega arith, omega arith)
      | inr range ↦
          let (a, b) = upper_ns-bounds min_delay attempt in
          let le = in_range (upper_ns min_delay attempt) in
          rw range (omega (arith, a, le), omega (arith, b, le))
    ]

-- ===== src/Bazelrc/Preprocess.antt =====
-- crates/bazelrc/src/preprocess.rs: line continuations, trimming and empty lines.
pub mod LineEndings
pub mod Continuations
pub mod Layout
pub mod Lines
use aspect_cli.Base.{
  ℕ, zero, suc, ◌-◌, Bool, not, ◌||◌, List, [], ◌∷◌, map, ◌==◌, if◌then◌else◌, length, is_empty,
  keep, Text, starts_with, trim_matches, split,
}

-- What `s.replace(pat, "")` leaves of `s`: `k` characters of an occurrence are still to be dropped.
unfoldable pub remove_from : Text → ℕ → Text → Text
unfolding starts_with
remove_from pat k [] = []
remove_from pat (suc k) (c ∷ s) = remove_from pat k s
remove_from pat zero (c ∷ s) =
    let here = starts_with pat (c ∷ s) in
    let rest = remove_from pat (if here then length pat - 1 else 0) s in
    if here then rest else c ∷ rest

abbrev pub crlf_continuation : Text
crlf_continuation = b'\\' ∷ b'\r' ∷ b'\n' ∷ []

abbrev pub lf_continuation : Text
lf_continuation = b'\\' ∷ b'\n' ∷ []

-- the two calls of `replace`, in their order
unfoldable pub join_continuations : Text → Text
unfolding remove_from
join_continuations s = remove_from lf_continuation 0 (remove_from crlf_continuation 0 s)

-- the characters that `trim_matches` takes off a line
unfoldable pub is_line_blank : ℕ → Bool
is_line_blank c = c == b' ' || c == b'\t' || c == b'\r'

unfoldable pub trim_line : Text → Text
unfolding trim_matches is_line_blank
trim_line = trim_matches is_line_blank

unfoldable pub process : Text → List Text
unfolding join_continuations split trim_line
process content =
    keep (λ line. not (is_empty line)) (map trim_line (split b'\n' (join_continuations content)))

-- ===== src/Bazelrc/Parse.antt =====
-- crates/bazelrc/src/parse.rs: one file and the files that it imports.
mod Cases
mod Rule
pub mod Termination
pub mod Stack
pub mod Gating
use aspect_cli.Base.{
  pop, ℕ, zero, suc, ◌+◌, ◌-◌, ◌/◌, ◌%◌, Bool, ◌||◌, Option, none, some, List, [], ◌∷◌, ◌++◌, map,
  ◌==◌, if◌then◌else◌, length, is_empty, any, Text, text, text_eq, strip_prefix, ends_with_char,
}
use aspect_cli.Base.Dict.{Dict, extend_at}
use aspect_cli.Bazelrc.Options.{
  RcOption, BazelRcError, import_not_found, import_cycle, invalid_import_args, io, out_of_fuel,
  Result, ok, err, ◌>>=◌,
}
use aspect_cli.Bazelrc.Preprocess.{process}
use aspect_cli.Bazelrc.Tokenize.{tokenize}

-- What the operating system answers. `none` is an I/O error.
pub record FileSystem : Type 0 where
  pub canonicalize : Text → Option Text
  pub read_to_string : Text → Option Text
  pub exists : Text → Bool

-- the accumulators `sources`, `options` and `import_stack`
pub record Parsed : Type 0 where
  pub sources : List Text
  pub options : Dict RcOption
  pub import_stack : List Text

-- `Path::join` on Unix
unfoldable pub path_join : Text → Text → Text
unfolding ends_with_char
path_join root [] = if is_empty root || ends_with_char b'/' root then root else root ++ b'/' ∷ []
path_join root (c ∷ rest) =
    if c == b'/'
    then c ∷ rest
    else if is_empty root || ends_with_char b'/' root
    then root ++ c ∷ rest
    else root ++ b'/' ∷ c ∷ rest

abbrev or_join : Text → Text → Option Text → Text
or_join root raw none = raw
or_join root raw (some rest) = path_join root rest

unfoldable pub resolve_import_path : Text → Text → Text
unfolding path_join strip_prefix
resolve_import_path raw root = or_join root raw (strip_prefix (text "%workspace%/") raw)

-- the call of `parse_file` for an imported path, with the condition that it carries
abbrev pub Import : Type 0
Import = Text → Option Text → Parsed → Result Parsed

-- the last two arms of the match, which do the same: each token behind the first is an option
unfoldable pub add_options : ℕ → Option Text → Text → List Text → Parsed → Parsed
add_options index condition key values st = record st {
  options =
      extend_at key
        (map
          (λ v. record {
            value = v;
            command = key;
            source_index = index;
            version_condition = condition;
          })
          values)
        st.options;
}

module _ (fs : FileSystem) (root : Text) (parse_import : Import) where
  unfoldable pub import_line : Text → Option Text → List Text → Parsed → Result Parsed
  import_line line condition (raw ∷ []) st =
      let path = resolve_import_path raw root in
      if fs.exists path then parse_import path condition st else err (import_not_found path)
  import_line line condition _ st = err (invalid_import_args line)

  unfoldable pub try_import_line : Text → Option Text → List Text → Parsed → Result Parsed
  try_import_line line condition (raw ∷ []) st =
      let path = resolve_import_path raw root in
      if fs.exists path then parse_import path condition st else ok st
  try_import_line line condition _ st = err (invalid_import_args line)

  unfoldable pub version_import_line : Text → List Text → Parsed → Result Parsed
  version_import_line line (condition ∷ raw ∷ []) st =
      let path = resolve_import_path raw root in
      if fs.exists path then parse_import path (some condition) st else ok st
  version_import_line line _ st = err (invalid_import_args line)

  -- the body of the loop over the lines, on the tokens of the line
  unfoldable pub parse_tokens : ℕ → Option Text → Text → List Text → Parsed → Result Parsed
  unfolding import_line try_import_line version_import_line add_options
  parse_tokens index condition line [] st = ok st
  parse_tokens index condition line (directive ∷ args) st =
      if text_eq directive (text "import")
      then import_line line condition args st
      else if text_eq directive (text "try-import")
      then try_import_line line condition args st
      else if text_eq directive (text "try-import-if-bazel-version")
      then version_import_line line args st
      else ok (add_options index condition directive args st)

  unfoldable pub parse_lines : ℕ → Option Text → List Text → Parsed → Result Parsed
  unfolding parse_tokens
  parse_lines index condition [] st = ok st
  parse_lines index condition (line ∷ lines) st =
      parse_tokens index condition line (tokenize line) st >>= parse_lines index condition lines

  -- from the content of the file on
  unfoldable pub parse_content : Text → Option Text → Parsed → Option Text → Result Parsed
  unfolding parse_lines
  parse_content canonical condition st none = err (io canonical)
  parse_content canonical condition st (some content) =
      let opened = record st {
        import_stack = st.import_stack ++ canonical ∷ [];
        sources = st.sources ++ canonical ∷ [];
      } in
      parse_lines (length st.sources) condition (process content) opened >>= λ done.
      ok (record done { import_stack = pop done.import_stack })

  unfoldable pub parse_canonical : Text → Option Text → Parsed → Option Text → Result Parsed
  unfolding parse_content
  parse_canonical path condition st none = err (io path)
  parse_canonical path condition st (some canonical) =
      if any (text_eq canonical) st.import_stack
      then err (import_cycle (st.import_stack ++ canonical ∷ []))
      else parse_content canonical condition st (fs.read_to_string canonical)

-- `parse_file`; the fuel bounds the depth of the imports
unfoldable pub parse_file : ℕ → FileSystem → Text → Text → Option Text → Parsed → Result Parsed
unfolding parse_canonical
parse_file zero fs root path condition st = err out_of_fuel
parse_file (suc f) fs root path condition st =
    parse_canonical fs root (parse_file f fs root) path condition st (fs.canonicalize path)

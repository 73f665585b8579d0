-- ===== src/Bazelrc/Parse/Rule.antt =====
-- What holds of one directive, of an import and of the closing of a file holds of `parse_file`.
use aspect_cli.Bazelrc.Options.{OnOk-imp}
use aspect_cli.Base.{
  ℕ, zero, suc, inl, inr, Option, none, some, List, [], ◌∷◌, ◌++◌, Bool-cases, length, any, Text,
  text_eq,
}
use aspect_cli.Bazelrc.Options.{ok, OnOk, OnOk-bind}
use aspect_cli.Bazelrc.Parse.Cases.{Carries, parse_tokens_cases}
use aspect_cli.Bazelrc.Parse.{
  FileSystem, Parsed, Import, pop, add_options, parse_tokens, parse_lines, parse_content,
  parse_canonical, parse_file,
}
use aspect_cli.Bazelrc.Preprocess.{process}
use aspect_cli.Bazelrc.Tokenize.{tokenize}

abbrev pub opened : Text → Parsed → Parsed
opened canonical st = record st {
  import_stack = st.import_stack ++ canonical ∷ [];
  sources = st.sources ++ canonical ∷ [];
}

abbrev pub closed : Parsed → Parsed
closed done = record done { import_stack = pop done.import_stack }

-- `C` is what is known of the condition, `I` of the index that the options get, and `R` relates the
-- accumulators before and after.
pub record Rule (C : Option Text → Type 0) (I : ℕ → Parsed → Type 0) (R : Parsed → Parsed → Type 0)
    : Type 0 where
  pub nothing : (st : Parsed) → R st st
  pub next : (a b c : Parsed) → R a b → R b c → R a c
  pub index_kept : (i : ℕ) (a b : Parsed) → R a b → I i a → I i b
  pub gated : (c : Text) → C (some c)
  pub options_added :
      (i : ℕ) (c : Option Text) (key : Text) (values : List Text) (st : Parsed)
      → I i st
      → C c
      → R st (add_options i c key values st)
  pub index_opened : (canonical : Text) (st : Parsed) → I (length st.sources) (opened canonical st)
  pub file_closed :
      (canonical : Text) (st done : Parsed) → R (opened canonical st) done → R st (closed done)

module _ {C : Option Text → Type 0} {I : ℕ → Parsed → Type 0} {R : Parsed → Parsed → Type 0}
    (rule : Rule C I R) where
  abbrev Imports : Import → Type 0
  Imports parse_import =
      (path : Text) (c : Option Text) (st : Parsed) → C c → OnOk (R st) (parse_import path c st)

  module _ (fs : FileSystem) (root : Text) (parse_import : Import)
      (imports : Imports parse_import) where
    carried : (c c' : Option Text) → Carries c c' → C c → C c'
    carried c c' (inl e) h = rw e h
    carried c c' (inr (own, e)) h = rw e (rule.gated own)

    parse_tokens-R :
        (i : ℕ) (c : Option Text) (line : Text) (tokens : List Text) (st : Parsed)
        → I i st
        → C c
        → OnOk (R st) (parse_tokens fs root parse_import i c line tokens st)
    parse_tokens-R i c line tokens st k h =
        parse_tokens_cases (OnOk (R st)) fs root parse_import i c st
          (record {
            import = λ path c' e. imports path c' st (carried c c' e h);
            nothing = rule.nothing st;
            error = λ e n. tt;
            options = λ key values. rule.options_added i c key values st k h;
          })
          line tokens

    parse_lines-R :
        (i : ℕ) (c : Option Text) (lines : List Text) (st : Parsed)
        → I i st
        → C c
        → OnOk (R st) (parse_lines fs root parse_import i c lines st)
    unfolding parse_lines
    parse_lines-R i c [] st k h = rule.nothing st
    parse_lines-R i c (line ∷ lines) st k h =
        OnOk-bind (R st) (R st) (parse_tokens fs root parse_import i c line (tokenize line) st)
          (parse_lines fs root parse_import i c lines)
          (parse_tokens-R i c line (tokenize line) st k h)
          (λ mid r.
            OnOk-imp (R mid) (R st) (parse_lines fs root parse_import i c lines mid)
              (λ done q. rule.next st mid done r q)
              (parse_lines-R i c lines mid (rule.index_kept i st mid r k) h))

    parse_content-R :
        (canonical : Text) (c : Option Text) (st : Parsed) (content : Option Text)
        → C c
        → OnOk (R st) (parse_content fs root parse_import canonical c st content)
    unfolding parse_content
    parse_content-R canonical c st none h = tt
    parse_content-R canonical c st (some content) h =
        OnOk-bind (R (opened canonical st)) (R st)
          (parse_lines fs root parse_import (length st.sources) c (process content)
            (opened canonical st))
          (λ done. ok (closed done))
          (parse_lines-R (length st.sources) c (process content) (opened canonical st)
            (rule.index_opened canonical st) h)
          (λ done r. rule.file_closed canonical st done r)

    parse_canonical-R :
        (path : Text) (c : Option Text) (st : Parsed) (found : Option Text)
        → C c
        → OnOk (R st) (parse_canonical fs root parse_import path c st found)
    unfolding parse_canonical
    parse_canonical-R path c st none h = tt
    parse_canonical-R path c st (some canonical) h =
        elim (Bool-cases (any (text_eq canonical) st.import_stack)) [
          | inl cycle ↦ rw cycle tt
          | inr fresh ↦ rw fresh (parse_content-R canonical c st (fs.read_to_string canonical) h)
        ]

  pub parse_file-R :
      (f : ℕ) (fs : FileSystem) (root path : Text) (c : Option Text) (st : Parsed)
      → C c
      → OnOk (R st) (parse_file f fs root path c st)
  unfolding parse_file
  parse_file-R zero fs root path c st h = tt
  parse_file-R (suc f) fs root path c st h =
      parse_canonical-R fs root (parse_file f fs root) (parse_file-R f fs root) path c st
        (fs.canonicalize path) h

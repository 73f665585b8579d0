-- ===== src/Bazelrc/Parse/Stack.antt =====
-- The accumulators of `parse_file`: the import stack and the options.
use aspect_cli.Base.{
  pop-append, ℕ, ◌≤◌, ◌<◌, ◌≡◌, refl, ◌∙◌, Option, List, [], ◌∷◌, ◌++◌, map, arith, length,
  length-append, All, Text,
}
use aspect_cli.Bazelrc.Options.{Result, ok, OnOk}
use aspect_cli.Bazelrc.Options.WellFormed.{Filed, IsFiled, IsFiled-extend_at, IsFiled-mono}
use aspect_cli.Bazelrc.Parse.Rule.{Rule, parse_file-R}
use aspect_cli.Bazelrc.Parse.{FileSystem, Parsed, add_options, parse_file}

abbrev pub SameStack : Parsed → Parsed → Type 0
SameStack a b = b.import_stack ≡ a.import_stack

stack_rule : Rule (λ c. Unit) (λ i st. Unit) SameStack
unfolding add_options
stack_rule = record {
  nothing = λ st. refl;
  next = λ a b c p q. q ∙ p;
  index_kept = λ i a b r h. h;
  gated = λ c. tt;
  options_added = λ i c key values st k h. refl;
  index_opened = λ canonical st. tt;
  file_closed = λ canonical st done r. rw r (pop-append st.import_stack canonical);
}

-- A call of `parse_file` that succeeds leaves the import stack as it was: pushes and pops balance, so
-- a file that has been read may be imported again by a sibling.
pub import_stack-parse_file :
    (f : ℕ) (fs : FileSystem) (root path : Text) (condition : Option Text) (st : Parsed)
    → OnOk (λ done. done.import_stack ≡ st.import_stack) (parse_file f fs root path condition st)
import_stack-parse_file f fs root path condition st =
    parse_file-R stack_rule f fs root path condition st tt

abbrev pub FiledIn : Parsed → Type 0
FiledIn st = IsFiled (length st.sources) st.options

-- sources are only added, and well-filed options stay well-filed
pub record Keeps (a b : Parsed) : Type 0 where
  pub grown : length a.sources ≤ length b.sources
  pub filed : FiledIn a → FiledIn b

All-added :
    (n i : ℕ) (condition : Option Text) (key : Text) (values : List Text)
    → i < n
    → All (Filed n key) (
        map
          (λ v. record {
            value = v;
            command = key;
            source_index = i;
            version_condition = condition;
          })
          values)
All-added n i condition key [] h = tt
All-added n i condition key (v ∷ vs) h = ((refl, h), All-added n i condition key vs h)

filed_rule : Rule (λ c. Unit) (λ i st. i < length st.sources) Keeps
unfolding add_options
filed_rule = record {
  nothing = λ st. record { grown = omega arith; filed = λ h. h };
  next = λ a b c p q. record { grown = omega arith; filed = λ h. q.filed (p.filed h) };
  index_kept = λ i a b r h. omega arith;
  gated = λ c. tt;
  options_added = λ i c key values st k h. record {
    grown = omega arith;
    filed = λ w.
        IsFiled-extend_at (length st.sources) key _ st.options
          (All-added (length st.sources) i c key values k) w;
  };
  index_opened = λ canonical st. omega (arith, length-append st.sources (canonical ∷ []));
  file_closed = λ canonical st done r. record {
    grown = omega (arith, r.grown, length-append st.sources (canonical ∷ []));
    filed = λ w. r.filed (
        IsFiled-mono (length st.sources) (length (st.sources ++ canonical ∷ [])) st.options
          (omega (arith, length-append st.sources (canonical ∷ []))) w);
  };
}

-- `parse_file` files every option under its own section, with an index into `sources`.
pub FiledIn-parse_file :
    (f : ℕ) (fs : FileSystem) (root path : Text) (condition : Option Text) (st : Parsed)
    → FiledIn st
    → OnOk FiledIn (parse_file f fs root path condition st)
FiledIn-parse_file f fs root path condition st w =
    filed_of (parse_file f fs root path condition st)
      (parse_file-R filed_rule f fs root path condition st tt)
  where
    filed_of : (r : Result Parsed) → OnOk (Keeps st) r → OnOk FiledIn r
    filed_of (ok done) k = k.filed w
    filed_of other k = tt

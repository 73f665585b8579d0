-- ===== src/Bazelrc/Parse/Termination.antt =====
-- The depth of the recursion of `parse_file`: the files of the import stack and those of the file system.
use aspect_cli.Base.{
  pop-append, ℕ, zero, suc, ◌+◌, ◌≤◌, ◌<◌, ◌≡◌, refl, sym, subst, ◌≢◌, inl, inr, Bool, true, false,
  ◌||◌, Option, none, some, List, [], ◌∷◌, ◌++◌, arith, if◌then◌else◌, Bool-cases, length, any,
  Text, text_eq, text_eq→eq, text_eq_iff,
}
use aspect_cli.Bazelrc.Parse.{add_options}
use aspect_cli.Bazelrc.Options.{out_of_fuel, Result, ok, err, ◌>>=◌}
use aspect_cli.Bazelrc.Parse.Cases.{parse_tokens_cases}
use aspect_cli.Bazelrc.Parse.Rule.{opened, closed}
use aspect_cli.Bazelrc.Parse.{
  FileSystem, Parsed, Import, parse_tokens, parse_lines, parse_content, parse_canonical, parse_file,
}
use aspect_cli.Bazelrc.Preprocess.{process}
use aspect_cli.Bazelrc.Tokenize.{tokenize}

abbrev pub is_in : List Text → Text → Bool
is_in l x = any (text_eq x) l

-- the files that are not on the import stack
abbrev pub unvisited : List Text → List Text → ℕ
unvisited [] stack = 0
unvisited (x ∷ files) stack = (if is_in stack x then 0 else 1) + unvisited files stack

is_in-append : (s : List Text) (c x : Text) → is_in (s ++ c ∷ []) x ≡ (is_in s x || text_eq x c)
is_in-append [] c x = ground arith
is_in-append (y ∷ s) c x = ground (arith, is_in-append s c x)

unvisited-push_le :
    (files stack : List Text) (c : Text) → unvisited files (stack ++ c ∷ []) ≤ unvisited files stack
unvisited-push_le [] stack c = omega arith
unvisited-push_le (x ∷ files) stack c =
    ground (arith, is_in-append stack c x, unvisited-push_le files stack c)

pub unvisited-push_lt :
    (files stack : List Text) (c : Text)
    → is_in files c ≡ true
    → is_in stack c ≡ false
    → unvisited files (stack ++ c ∷ []) < unvisited files stack
unvisited-push_lt [] stack c h k = cc
unvisited-push_lt (x ∷ files) stack c h k = elim (Bool-cases (text_eq c x)) [
  | inl same ↦
      let e : c ≡ x = text_eq→eq c x same in
      let out : is_in stack x ≡ false = rw (← e) k in
      ground (
        arith,
        out,
        is_in-append stack c x,
        text_eq_iff x c,
        sym e,
        unvisited-push_le files stack c,
      )
  | inr other ↦ ground (arith, is_in-append stack c x, unvisited-push_lt files stack c, other)
]

-- The run ends in a way that the program has: with the stack restored, or with one of its errors.
abbrev pub Finishes : List Text → Result Parsed → Type 0
Finishes stack (ok st) = st.import_stack ≡ stack
Finishes stack (err e) = e ≢ out_of_fuel

pub Finishes-bind :
    (s t : List Text) (m : Result Parsed) (f : Parsed → Result Parsed)
    → Finishes s m
    → ((st : Parsed) → st.import_stack ≡ s → Finishes t (f st))
    → Finishes t (m >>= f)
Finishes-bind s t (ok st) f h k = k st h
Finishes-bind s t (err e) f h k = h

module _ (fs : FileSystem) (root : Text) (parse_import : Import) (stack : List Text)
    (imports : (path : Text) (c : Option Text) (st : Parsed)
      → st.import_stack ≡ stack
      → Finishes stack (parse_import path c st)) where
  parse_lines-Finishes :
      (i : ℕ) (c : Option Text) (lines : List Text) (st : Parsed)
      → st.import_stack ≡ stack
      → Finishes stack (parse_lines fs root parse_import i c lines st)
  unfolding parse_lines
  parse_lines-Finishes i c [] st h = h
  parse_lines-Finishes i c (line ∷ lines) st h =
      Finishes-bind stack stack (parse_tokens fs root parse_import i c line (tokenize line) st)
        (parse_lines fs root parse_import i c lines)
        (parse_tokens_cases (Finishes stack) fs root parse_import i c st
          (record {
            import = λ path c' e. imports path c' st h;
            nothing = h;
            error = λ e n. n;
            options = λ key values. unfold add_options in h;
          })
          line (tokenize line))
        (parse_lines-Finishes i c lines)

module _ (fs : FileSystem) (root : Text) (files : List Text)
    (found : (path c : Text) → fs.canonicalize path ≡ some c → is_in files c ≡ true) where
  parse_canonical-Finishes :
      (parse_import : Import) (path : Text) (condition : Option Text) (st : Parsed) (c : Text)
      → fs.canonicalize path ≡ some c
      → ((p : Text) (d : Option Text) (mid : Parsed)
          → unvisited files mid.import_stack < unvisited files st.import_stack
          → Finishes mid.import_stack (parse_import p d mid))
      → Finishes st.import_stack (parse_canonical fs root parse_import path condition st (some c))
  unfolding parse_canonical
  parse_canonical-Finishes parse_import path condition st c e imports =
      elim (Bool-cases (any (text_eq c) st.import_stack)) [
        | inl cycle ↦ rw cycle (λ x. cc)
        | inr fresh ↦ rw fresh (
            content (fs.read_to_string c)
              (unvisited-push_lt files st.import_stack c (found path c e) fresh))
      ]
    where
      content :
          (text : Option Text)
          → unvisited files (st.import_stack ++ c ∷ []) < unvisited files st.import_stack
          → Finishes st.import_stack (parse_content fs root parse_import c condition st text)
      content none lt = λ x. cc
      content (some t) lt =
          Finishes-bind (st.import_stack ++ c ∷ []) st.import_stack
            (parse_lines fs root parse_import (length st.sources) condition (process t)
              (opened c st))
            (λ done. ok (closed done))
            (parse_lines-Finishes fs root parse_import (st.import_stack ++ c ∷ [])
              (λ p d mid same.
                subst (λ s. Finishes s (parse_import p d mid)) same (imports p d mid (rw same lt)))
              (length st.sources) condition (process t) (opened c st) refl)
            (λ done same. rw same (pop-append st.import_stack c))

  -- If the canonical paths of the file system are among `files` and the fuel is above the number of those
  -- off the import stack, `parse_file` returns: with the stack restored, or with one of the program's own
  -- errors.
  pub parse_file-Finishes :
      (f : ℕ) (path : Text) (condition : Option Text) (st : Parsed)
      → unvisited files st.import_stack < f
      → Finishes st.import_stack (parse_file f fs root path condition st)
  unfolding parse_file
  parse_file-Finishes zero path condition st h = absurd (omega arith)
  parse_file-Finishes (suc f) path condition st h =
      elim-found (fs.canonicalize path) refl (parse_file-Finishes f)
    where
      elim-found :
          (o : Option Text)
          → fs.canonicalize path ≡ o
          → ((p : Text) (d : Option Text) (mid : Parsed)
              → unvisited files mid.import_stack < f
              → Finishes mid.import_stack (parse_file f fs root p d mid))
          → Finishes st.import_stack
              (parse_canonical fs root (parse_file f fs root) path condition st o)
      elim-found none e ih = λ x. cc
      elim-found (some c) e ih =
          parse_canonical-Finishes (parse_file f fs root) path condition st c e
            (λ p d mid lt. ih p d mid (omega arith))

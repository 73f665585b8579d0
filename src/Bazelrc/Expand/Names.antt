-- ===== src/Bazelrc/Expand/Names.antt =====
-- The config names that can lead anywhere: a name with a section is a suffix of a key of the map, and
-- there are finitely many.
use aspect_cli.Base.{
  ℕ, ◌≡◌, refl, ◌∙◌, ◌≢◌, ◌⊎◌, inl, inr, true, List, [], ◌∷◌, ◌++◌, arith, Bool-cases, any-append,
  Text, text_eq, text_eq→eq, text_eq_refl,
}
use aspect_cli.Base.Dict.{Dict, get}
use aspect_cli.Bazelrc.Expand.{Context, sections, levels, config_options}
use aspect_cli.Bazelrc.Options.{RcOption, BazelRc, raw_options}
use aspect_cli.Bazelrc.Parse.Termination.{is_in}

abbrev suffixes : Text → List Text
suffixes [] = [] ∷ []
suffixes (c ∷ s) = (c ∷ s) ∷ suffixes s

-- the suffixes of all keys
abbrev pub names_of : Dict RcOption → List Text
names_of [] = []
names_of ((k, vs) ∷ m) = suffixes k ++ names_of m

suffixes_self : (s : Text) → is_in (suffixes s) s ≡ true
suffixes_self [] = unfold text_eq in refl
suffixes_self (c ∷ s) = rw (text_eq_refl (c ∷ s))

suffixes-append : (p : Text) (c : ℕ) (s : Text) → is_in (suffixes (p ++ c ∷ s)) s ≡ true
suffixes-append [] c s = ground (arith, suffixes_self s)
suffixes-append (d ∷ p) c s = ground (arith, suffixes-append p c s)

is_in-names_of :
    (p : Text) (c : ℕ) (name : Text) (m : Dict RcOption)
    → get (p ++ c ∷ name) m ≢ []
    → is_in (names_of m) name ≡ true
unfolding get
is_in-names_of p c name [] h = absurd (h refl)
is_in-names_of p c name ((j, vs) ∷ m) h = elim (Bool-cases (text_eq j (p ++ c ∷ name))) [
  | inl same ↦
      let key : is_in (suffixes j) name ≡ true =
        rw (text_eq→eq j (p ++ c ∷ name) same) (suffixes-append p c name) in
      any-append (text_eq name) (suffixes j) (names_of m) ∙ rw key
  | inr other ↦
      any-append (text_eq name) (suffixes j) (names_of m)
      ∙ ground (arith, is_in-names_of p c name m (rw other at h))
]

append-ne-nil {ℓ} : {A : Type ℓ} (xs ys : List A) → xs ++ ys ≢ [] → (xs ≢ []) ⊎ (ys ≢ [])
append-ne-nil [] ys h = inr h
append-ne-nil (x ∷ xs) ys h = inl (λ e. cc)

sections-names_of :
    (rc : BazelRc) (name : Text) (ps : List Text)
    → sections rc name ps ≢ []
    → is_in (names_of rc.options) name ≡ true
unfolding sections raw_options
sections-names_of rc name [] h = absurd (h refl)
sections-names_of rc name (p ∷ ps) h =
    elim (append-ne-nil (get (p ++ b':' ∷ name) rc.options) (sections rc name ps) h) [
      | inl here ↦ is_in-names_of p b':' name rc.options here
      | inr later ↦ sections-names_of rc name ps later
    ]

-- A config that has an option at some level of the command is among the names.
pub config_options-names_of :
    (x : Context) (name : Text)
    → config_options x name ≢ []
    → is_in (names_of x.rc.options) name ≡ true
unfolding config_options
config_options-names_of x name h = sections-names_of x.rc name (levels x.command) h

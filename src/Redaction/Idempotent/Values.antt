-- ===== src/Redaction/Idempotent/Values.antt =====
-- The redaction of what stands in the place of a value.
use mathlib.Core.Bool.{true≢false}
use aspect_cli.Redaction.Secrets.{behind_name, into_owned-or_input, strip_url_creds-Keeps}
use aspect_cli.Base.{
  ◌≡◌, refl, sym, ap, ◌∙◌, subst, ◌⊎◌, inl, inr, Bool, true, false, ◌||◌, none, some, [], ◌∷◌, ◌++◌,
  arith, if◌then◌else◌, Bool-cases, Text, text_eq, contains_char, contains_char-append, split_once,
}
use aspect_cli.Redaction.{
  into_owned, or_input, redacted, safe_env_values, contains, is_separator, header_name,
  redact_header_value, strip_url_creds,
}
use aspect_cli.Redaction.Urls.{strip_url_creds_cases}

abbrev pub stripped : Text → Text
stripped s = into_owned (strip_url_creds s)

-- Stripping a text of its credentials twice is the same as doing it once.
pub strip_url_creds_idempotent :
    (s : Text)
    → into_owned (strip_url_creds (into_owned (strip_url_creds s))) ≡ into_owned (strip_url_creds s)
strip_url_creds_idempotent s = elim (strip_url_creds_cases s) [
  | inl e ↦ ap (λ c. stripped (into_owned c)) e
  | inr (front, user, host, same, le, e, again) ↦
      ap (λ c. stripped (into_owned c)) e ∙ (ap into_owned again ∙ sym (ap into_owned e))
]

-- the label of a header stays in front of whatever takes the place of its value
header_name_cases :
    (s : Text)
    → (header_name s ≡ none)
      ⊎ ((n : Text) × (header_name s ≡ some n) × ((t : Text) → header_name (n ++ t) ≡ some n))
unfolding header_name
header_name_cases [] = inl refl
header_name_cases (c ∷ s) = elim (Bool-cases (is_separator c)) [
  | inl e ↦ inr (c ∷ [], rw e refl, λ t. rw e refl)
  | inr e ↦ elim (header_name_cases s) [
    | inl h ↦ inl (rw (e, h) refl)
    | inr (n, h, k) ↦ inr (c ∷ n, rw (e, h) refl, λ t. rw (e, k t) refl)
  ]
]

pub redact_header_value_idempotent :
    (s : Text) → redact_header_value (redact_header_value s) ≡ redact_header_value s
unfolding redact_header_value header_name
redact_header_value_idempotent s = elim (header_name_cases s) [
  | inl h ↦ rw h refl
  | inr (n, h, k) ↦ rw h (rw (k redacted) refl)
]

-- a choice between keeping a text, stripping it and replacing it, made twice
pub choice_idempotent :
    (safe : Text → Bool) (f : Text → Text) (shown : Bool) (r v : Text)
    → ((x : Text) → f (f x) ≡ f x)
    → safe r ≡ false
    → (let choose : Text → Text = λ x. if safe x then x else if shown then f x else r in
        choose (choose v) ≡ choose v)
choice_idempotent safe f shown r v again unsafe = elim (Bool-cases (safe v)) [
  | inl h ↦ rw h (rw h refl)
  | inr h ↦ rw h (behind shown)
]
  where
    behind :
        (b : Bool)
        → (if safe (if b then f v else r)
            then if b then f v else r
            else if b
            then f (if b then f v else r)
            else r)
          ≡ (if b then f v else r)
    behind true = elim (Bool-cases (safe (f v))) [ inl k ↦ rw k refl | inr k ↦ rw k (again v) ]
    behind false = rw unsafe refl

pub redacted_unsafe : contains safe_env_values redacted ≡ false
unfolding contains text_eq
redacted_unsafe = refl

pub or_input-stripped :
    (key val : Text)
    → into_owned (or_input (key ++ b'=' ∷ val) (key ++ b'=' ∷ []) (strip_url_creds val))
      ≡ key ++ b'=' ∷ stripped val
or_input-stripped key val =
    rw (behind_name key val, behind_name key (stripped val))
      (into_owned-or_input (key ++ b'=' ∷ []) val (strip_url_creds val) (strip_url_creds-Keeps val))

neither : (a b c : Bool) → (a || (b || c)) ≡ false → (a || c) ≡ false
neither true b c h = h
neither false true c h = absurd (true≢false h)
neither false false c h = h

-- a text without `=` has none when it is stripped
pub contains_char-stripped :
    (s : Text) → contains_char b'=' s ≡ false → contains_char b'=' (stripped s) ≡ false
unfolding contains_char
contains_char-stripped s h = elim (strip_url_creds_cases s) [
  | inl e ↦ rw e h
  | inr (front, user, host, same, le, e, again) ↦
      let split : (contains_char b'=' front || (contains_char b'=' user || contains_char b'=' host))
          ≡ false =
        ap (λ b. contains_char b'=' front || b) (sym (contains_char-append b'=' user host))
        ∙ (sym (contains_char-append b'=' front (user ++ host))
            ∙ subst (λ x. contains_char b'=' x ≡ false) same h) in
      rw e (
        contains_char-append b'=' front (redacted ++ host)
        ∙ neither (contains_char b'=' front) (contains_char b'=' user) (contains_char b'=' host)
            split)
]

pub split_once-absent : (s : Text) → contains_char b'=' s ≡ false → split_once b'=' s ≡ none
unfolding split_once contains_char
split_once-absent [] h = refl
split_once-absent (c ∷ s) h = ground (arith, split_once-absent s)

-- ===== src/Redaction/Urls.antt =====
-- `strip_url_creds`: where it cuts, and what it leaves.
use mathlib.Core.Option
use aspect_cli.Base.{
  ℕ, suc, ◌+◌, ◌≤◌, ◌≡◌, refl, ap, ◌∙◌, subst, ◌⊎◌, inl, inr, false, Option, none, some, [], ◌∷◌,
  ◌++◌, append_assoc, arith, ◌==◌, if◌then◌else◌, Bool-cases, length, Text, strip_prefix,
  strip_prefix→eq, contains_char, before_char, find_char, drop,
}
use aspect_cli.Redaction.{
  borrowed, owned, redacted, scheme_mark, or_later, split_scheme, host_part, strip_url_creds,
  replace_user,
}

-- `host_part` as one pass over the text
abbrev pub host_pass : Text → Option Text
host_pass [] = none
host_pass (c ∷ s) =
    let rest = host_pass s in if c == b'/' then none else if c == b'@' then some (c ∷ s) else rest

drop_shift :
    (c : ℕ) (s : Text) (o : Option ℕ)
    → Option.map (λ at. drop at (c ∷ s)) (Option.map (λ i. i + 1) o)
      ≡ Option.map (λ at. drop at s) o
unfolding drop
drop_shift c s none = refl
drop_shift c s (some i) = let e : i + 1 ≡ suc i = omega arith in ap (λ j. some (drop j (c ∷ s))) e

host_part-pass : (s : Text) → host_part s ≡ host_pass s
unfolding host_part find_char before_char drop
host_part-pass [] = refl
host_part-pass (c ∷ s) = elim (Bool-cases (c == b'/')) [
  | inl slash ↦ rw slash refl
  | inr no_slash ↦ elim (Bool-cases (c == b'@')) [
    | inl at ↦ rw (no_slash, at) refl
    | inr no_at ↦
        rw (no_slash, no_at)
          (drop_shift c s (find_char b'@' (before_char b'/' s)) ∙ host_part-pass s)
  ]
]

pub strip_prefix-front :
    (p a b c : Text)
    → length p ≤ length a
    → strip_prefix p (a ++ b) ≡ none
    → strip_prefix p (a ++ c) ≡ none
unfolding strip_prefix
strip_prefix-front [] a b c le h = absurd cc
strip_prefix-front (d ∷ p) [] b c le h = absurd (omega arith)
strip_prefix-front (d ∷ p) (e ∷ a) b c le h = ground (arith, strip_prefix-front p a b c)

found_mark : (t : Text) → split_scheme (scheme_mark ++ t) ≡ some (scheme_mark, t)
unfolding split_scheme strip_prefix
found_mark t = refl

-- where the mark is: the text through it is long enough to hold it, and it alone decides the cut
abbrev pub CutAt : Text → Type 0
CutAt s =
    (split_scheme s ≡ none)
    ⊎ ((a : Text) × (b : Text) × (s ≡ a ++ b)
        × (3 ≤ length a)
        × ((t : Text) → split_scheme (a ++ t) ≡ some (a, t)))

pub split_scheme_cases : (s : Text) → CutAt s
unfolding split_scheme
split_scheme_cases [] = inl refl
split_scheme_cases (c ∷ s) = cases (strip_prefix scheme_mark (c ∷ s)) refl (split_scheme_cases s)
  where
    cases :
        (o : Option Text)
        → strip_prefix scheme_mark (c ∷ s) ≡ o
        → CutAt s
        → (or_later c o (split_scheme s) ≡ none)
          ⊎ ((a : Text) × (b : Text) × (c ∷ s ≡ a ++ b)
              × (3 ≤ length a)
              × ((t : Text) → split_scheme (a ++ t) ≡ some (a, t)))
    cases (some rest) e ih =
        inr (scheme_mark, rest, strip_prefix→eq scheme_mark (c ∷ s) rest e, omega arith, found_mark)
    cases none e (inl h) = inl (rw h refl)
    cases none e (inr (a, b, same, le, k)) =
        let far : (t : Text) → strip_prefix scheme_mark (c ∷ (a ++ t)) ≡ none = λ t.
          strip_prefix-front scheme_mark (c ∷ a) b t (omega arith)
            (subst (λ x. strip_prefix scheme_mark (c ∷ x) ≡ none) same e) in
        inr (c ∷ a, b, ap (◌∷◌ c) same, omega arith, λ t. rw (far t, k t) refl)

-- what `host_pass` keeps: a tail of the text, which it keeps again
pub host_pass_cases :
    (s : Text)
    → (host_pass s ≡ none)
      ⊎ ((user : Text) × (host : Text) × (s ≡ user ++ host)
          × (host_pass s ≡ some host)
          × (host_pass host ≡ some host))
host_pass_cases [] = inl refl
host_pass_cases (c ∷ s) = elim (Bool-cases (c == b'/')) [
  | inl slash ↦ inl (rw slash refl)
  | inr no_slash ↦ elim (Bool-cases (c == b'@')) [
    | inl at ↦ inr ([], c ∷ s, refl, rw (no_slash, at) refl, rw (no_slash, at) refl)
    | inr no_at ↦ elim (host_pass_cases s) [
      | inl h ↦ inl (rw (no_slash, no_at) h)
      | inr (user, host, same, h, k) ↦
          inr (c ∷ user, host, ap (◌∷◌ c) same, rw (no_slash, no_at) h, k)
    ]
  ]
]

-- what `strip_url_creds` does to a text: nothing, or it puts the mark in place of the user
abbrev pub Stripped : Text → Type 0
Stripped s =
    (strip_url_creds s ≡ borrowed s)
    ⊎ ((front : Text) × (user : Text) × (host : Text) × (s ≡ front ++ (user ++ host))
        × (3 ≤ length front)
        × (strip_url_creds s ≡ owned (front ++ (redacted ++ host)))
        × (strip_url_creds (front ++ (redacted ++ host)) ≡ owned (front ++ (redacted ++ host))))

strip-front :
    (a b : Text)
    → ((t : Text) → split_scheme (a ++ t) ≡ some (a, t))
    → strip_url_creds (a ++ b) ≡ replace_user (a ++ b) a (host_pass b)
unfolding strip_url_creds
strip-front a b k = rw (k b) (ap (replace_user (a ++ b) a) (host_part-pass b))

pub strip_url_creds_cases : (s : Text) → Stripped s
unfolding strip_url_creds
strip_url_creds_cases s = elim (split_scheme_cases s) [
  | inl h ↦ inl (rw h refl)
  | inr (a, b, same, le, k) ↦ elim (host_pass_cases b) [
    | inl h ↦ inl (rw same (strip-front a b k ∙ rw h refl))
    | inr (user, host, e, h, again) ↦ inr (
      a,
      user,
      host,
      same ∙ ap (◌++◌ a) e,
      le,
      rw same (strip-front a b k ∙ rw h refl),
      strip-front a (redacted ++ host) k ∙ rw again refl,
    )
  ]
]

pub borrowed-strip_url_creds : (s t : Text) → strip_url_creds s ≡ borrowed t → t ≡ s
borrowed-strip_url_creds s t h = elim (strip_url_creds_cases s) [
  | inl e ↦ cc
  | inr (a, user, host, same, le, e, again) ↦ absurd cc
]

split_scheme-plain :
    (scheme t : Text)
    → contains_char b':' scheme ≡ false
    → split_scheme (scheme ++ (scheme_mark ++ t)) ≡ some (scheme ++ scheme_mark, t)
unfolding split_scheme contains_char strip_prefix
split_scheme-plain [] t h = refl
split_scheme-plain (c ∷ scheme) t h = ground (arith, split_scheme-plain scheme t)

host_pass-plain :
    (user rest : Text)
    → contains_char b'/' user ≡ false
    → contains_char b'@' user ≡ false
    → host_pass (user ++ b'@' ∷ rest) ≡ some (b'@' ∷ rest)
unfolding contains_char
host_pass-plain [] rest h k = refl
host_pass-plain (c ∷ user) rest h k = ground (arith, host_pass-plain user rest)

-- The credentials are gone, whatever they are: behind a scheme, all between the mark and the first `@`
-- of the authority is replaced, and nothing else.
pub strip_url_creds-user :
    (scheme user rest : Text)
    → contains_char b':' scheme ≡ false
    → contains_char b'/' user ≡ false
    → contains_char b'@' user ≡ false
    → strip_url_creds (scheme ++ (scheme_mark ++ (user ++ b'@' ∷ rest)))
      ≡ owned (scheme ++ (scheme_mark ++ (redacted ++ b'@' ∷ rest)))
unfolding strip_url_creds
strip_url_creds-user scheme user rest p q r =
    rw (split_scheme-plain scheme (user ++ b'@' ∷ rest) p) (
      rw (host_part-pass (user ++ b'@' ∷ rest) ∙ host_pass-plain user rest q r)
        (ap owned (append_assoc scheme scheme_mark (redacted ++ b'@' ∷ rest))))

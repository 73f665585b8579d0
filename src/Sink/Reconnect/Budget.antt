-- ===== src/Sink/Reconnect/Budget.antt =====
-- How long the sink keeps on trying.
use aspect_cli.Base.{◌++◌, ◌∙◌, All-append, length-append}
use aspect_cli.Base.{
  ℕ, ◌+◌, ◌≤◌, ◌<◌, ◌≡◌, refl, sym, subst, inl, inr, true, false, List, [], ◌∷◌, arith, ltb, leb,
  Bool-cases, ltb→lt, ltb→le, length, All,
}
use aspect_cli.Sink.Reconnect.{
  Drive, transient, Loop, start, Round, reconnect, giving_up, after_transient, round,
  reconnect_loop,
}

-- a transient failure in a round in which no ack came
abbrev pub IsStuck : ℕ → Drive → Type 0
IsStuck acked d = (d.outcome ≡ transient) × (d.acked ≡ acked)

-- the loop goes on, with this many attempts behind it
abbrev pub IsAt : ℕ → ℕ → Round → Type 0
IsAt n acked r = (l : Loop) × (r ≡ reconnect l) × (l.attempt ≡ n) × (l.max_acked ≡ acked)

ltb_self : (n : ℕ) → ltb n n ≡ false
ltb_self n = ground arith

stuck_round :
    (max_retries : ℕ) (l : Loop) (d : Drive)
    → IsStuck l.max_acked d
    → l.attempt < max_retries
    → IsAt (l.attempt + 1) l.max_acked (round max_retries l d d.outcome)
unfolding after_transient
stuck_round max_retries l d (t, same) lt =
    let more : leb max_retries l.attempt ≡ false = ground arith in
    rw (t, same, ltb_self l.max_acked, more) (_, refl, refl, refl)

last_round :
    (max_retries : ℕ) (l : Loop) (d : Drive)
    → IsStuck l.max_acked d
    → l.attempt ≡ max_retries
    → round max_retries l d d.outcome ≡ giving_up max_retries
unfolding after_transient
last_round max_retries l d (t, same) e =
    let none_left : leb max_retries max_retries ≡ true = ground arith in
    rw (t, same, ltb_self l.max_acked, e, none_left) refl

counts_on :
    (max_retries : ℕ) (l : Loop) (drives : List Drive)
    → All (IsStuck l.max_acked) drives
    → l.attempt + length drives ≤ max_retries
    → IsAt (l.attempt + length drives) l.max_acked (reconnect_loop max_retries (reconnect l) drives)
unfolding reconnect_loop
counts_on max_retries l [] h le = (l, refl, omega arith, refl)
counts_on max_retries l (d ∷ drives) (h, hs) le =
    let (m, e, counted, kept) = stuck_round max_retries l d h (omega arith) in
    let later = reconnect_loop max_retries (reconnect m) drives in
    let rest =
      counts_on max_retries m drives (subst (λ k. All (IsStuck k) drives) (sym kept) hs)
        (omega (arith, counted)) in
    let total : m.attempt + length drives ≡ l.attempt + length (d ∷ drives) =
      omega (arith, counted) in
    rw e (
      subst (λ k. IsAt k l.max_acked later) total
        (subst (λ k. IsAt (m.attempt + length drives) k later) kept rest))

gave_up_stays :
    (max_retries n : ℕ) (drives : List Drive)
    → reconnect_loop max_retries (giving_up n) drives ≡ giving_up n
unfolding reconnect_loop
gave_up_stays max_retries n [] = refl
gave_up_stays max_retries n (d ∷ drives) = refl

gives_up :
    (max_retries : ℕ) (l : Loop) (drives : List Drive)
    → All (IsStuck l.max_acked) drives
    → l.attempt ≤ max_retries
    → max_retries < l.attempt + length drives
    → reconnect_loop max_retries (reconnect l) drives ≡ giving_up max_retries
unfolding reconnect_loop
gives_up max_retries l [] h le gt = absurd (omega arith)
gives_up max_retries l (d ∷ drives) (h, hs) le gt = elim (Bool-cases (ltb l.attempt max_retries)) [
  | inl more ↦
      let (m, e, counted, kept) =
        stuck_round max_retries l d h (ltb→lt l.attempt max_retries more) in
      let below = ltb→lt l.attempt max_retries more in
      rw e (
        gives_up max_retries m drives (subst (λ k. All (IsStuck k) drives) (sym kept) hs)
          (omega (arith, counted, below)) (omega (arith, counted)))
  | inr none_left ↦
      let spent : l.attempt ≡ max_retries = omega (arith, ltb→le l.attempt max_retries none_left) in
      rw (last_round max_retries l d h spent) (gave_up_stays max_retries max_retries drives)
]

-- Without any ack, the sink survives as many transient failures as it may retry, counting each, and gives
-- up at the next one.
pub reconnect_loop-budget :
    (max_retries : ℕ) (drives : List Drive) (last : Drive)
    → All (IsStuck 0) drives
    → IsStuck 0 last
    → length drives ≡ max_retries
    → IsAt max_retries 0 (reconnect_loop max_retries (reconnect start) drives)
      × (reconnect_loop max_retries (reconnect start) (drives ++ last ∷ []) ≡ giving_up max_retries)
reconnect_loop-budget max_retries drives last h k e =
    let all : 0 + length drives ≡ max_retries = omega (arith, e) in
    (
      subst (λ n. IsAt n 0 (reconnect_loop max_retries (reconnect start) drives)) all
          (counts_on max_retries start drives h (omega (arith, e))),
      gives_up max_retries start (drives ++ last ∷ [])
          (All-append (IsStuck 0) drives (last ∷ []) h (k, tt)) (omega arith)
          (omega (arith, e, length-append drives (last ∷ []))),
    )

-- transient failures, each after an ack that was new
abbrev pub Rises : ℕ → List Drive → Type 0
Rises acked [] = Unit
Rises acked (d ∷ drives) = (d.outcome ≡ transient) × (acked < d.acked) × Rises d.acked drives

-- where the acks are after failures that each brought one
abbrev pub risen : ℕ → List Drive → ℕ
risen acked [] = acked
risen acked (d ∷ drives) = risen d.acked drives

-- a failure behind a new ack starts the count of the attempts again
one_rise :
    (max_retries : ℕ) (l : Loop) (d : Drive) (later : List Drive)
    → 0 < max_retries
    → d.outcome ≡ transient
    → l.max_acked < d.acked
    → reconnect_loop max_retries (reconnect l) (d ∷ later)
      ≡ reconnect_loop max_retries (reconnect (record l { attempt = 0; max_acked = d.acked })) later
unfolding reconnect_loop after_transient
one_rise max_retries l d later some_left t new =
    let progress : ltb l.max_acked d.acked ≡ true = ground (arith, new) in
    let enabled : ltb 0 max_retries ≡ true = ground (arith, some_left) in
    rw (t, progress, enabled) refl

-- behind failures that each brought an ack, the first of them now, no attempt counts
rising_resets :
    (max_retries : ℕ) (l : Loop) (d : Drive) (drives later : List Drive)
    → 0 < max_retries
    → Rises l.max_acked (d ∷ drives)
    → (m : Loop) × (m.attempt ≡ 0)
      × (m.max_acked ≡ risen d.acked drives)
      × (reconnect_loop max_retries (reconnect l) ((d ∷ drives) ++ later)
          ≡ reconnect_loop max_retries (reconnect m) later)
rising_resets max_retries l d [] later some_left (t, new, h) = (
  record l { attempt = 0; max_acked = d.acked },
  refl,
  refl,
  one_rise max_retries l d later some_left t new,
)
rising_resets max_retries l d (n ∷ drives) later some_left (t, new, h) =
    let (m, zero, far, e) =
      rising_resets max_retries (record l { attempt = 0; max_acked = d.acked }) n drives later
        some_left h in
    (m, zero, far, one_rise max_retries l d ((n ∷ drives) ++ later) some_left t new ∙ e)

-- A failure behind a new ack gives the full budget back, however many attempts counted before: unless
-- retries are switched off, the sink never gives up while each connection brings a new ack, then survives
-- as many transient failures without one as it may retry, and gives up at the next one.
pub reconnect_loop-progress :
    (max_retries : ℕ) (l : Loop) (d : Drive) (drives stuck : List Drive) (last : Drive)
    → 0 < max_retries
    → Rises l.max_acked (d ∷ drives)
    → All (IsStuck (risen d.acked drives)) stuck
    → IsStuck (risen d.acked drives) last
    → length stuck ≡ max_retries
    → IsAt max_retries
        (risen d.acked drives)
        (reconnect_loop max_retries (reconnect l) ((d ∷ drives) ++ stuck))
      × (reconnect_loop max_retries (reconnect l) ((d ∷ drives) ++ (stuck ++ last ∷ []))
          ≡ giving_up max_retries)
reconnect_loop-progress max_retries l d drives stuck last some_left rising h k e =
    let acked = risen d.acked drives in
    let (m, zero, far, same) = rising_resets max_retries l d drives stuck some_left rising in
    let (n, zero_n, far_n, same_n) =
      rising_resets max_retries l d drives (stuck ++ last ∷ []) some_left rising in
    let counted =
      counts_on max_retries m stuck (subst (λ k. All (IsStuck k) stuck) (sym far) h)
        (omega (arith, zero, e)) in
    let all : m.attempt + length stuck ≡ max_retries = omega (arith, zero, e) in
    let spent = reconnect_loop max_retries (reconnect m) stuck in
    (
      subst (IsAt max_retries acked) (sym same) (
          subst (λ a. IsAt max_retries a spent) far
            (subst (λ n. IsAt n m.max_acked spent) all counted)),
      same_n
          ∙ gives_up max_retries n (stuck ++ last ∷ [])
              (subst (λ k. All (IsStuck k) (stuck ++ last ∷ [])) (sym far_n)
                (All-append (IsStuck acked) stuck (last ∷ []) h (k, tt)))
              (omega (arith, zero_n)) (omega (arith, zero_n, e, length-append stuck (last ∷ []))),
    )

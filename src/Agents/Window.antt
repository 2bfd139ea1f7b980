-- ===== src/Agents/Window.antt =====
-- The calls of a user within a minute (services/api/src/tkp_api/agents/guardrail.py).
use tkp_platform.Base.{
  ℕ, ◌+◌, ◌≤◌, ◌<◌, ◌≡◌, ◌⊎◌, refl, sym, ap, ◌∙◌, subst, inl, inr, Bool, true, false, ◌&&◌, List,
  [], ◌∷◌, ◌++◌, ltb, leb, if◌then◌else◌, filter, length, arith, Bool-cases, length-append,
  append_assoc, append-nil,
}
use tkp_platform.Base.Result.{Result, ok, err}
use tkp_platform.Base.TableLaws.{filter-append}
use tkp_platform.Base.Text.{Text, text_eq}
use tkp_platform.Base.TextLaws.{text_eq→eq}
use tkp_platform.Agents.Guardrail.{
  History, is_fresh, RateAnswer, ValueError, exceeded, check_rate_limit,
}

abbrev pub lets_through : Result ValueError RateAnswer → Bool
lets_through (err e) = false
lets_through (ok answer) = answer.allowed

-- The times at which calls of the user are allowed.
abbrev pub allowed_times : ℕ → Text → List (Text × ℕ) → History → List ℕ
allowed_times max_calls user [] history = []
allowed_times max_calls user ((caller, now) ∷ calls) history =
    let (answer, after) = check_rate_limit max_calls caller now history in
    let rest = allowed_times max_calls user calls after in
    if text_eq user caller && lets_through answer then now ∷ rest else rest

-- The clock does not go back.
abbrev pub Ascending : ℕ → List (Text × ℕ) → Type 0
Ascending clock [] = Unit
Ascending clock (c ∷ calls) = (clock ≤ c.1) × Ascending c.1 calls

-- Later than the start, and at most sixty seconds later.
abbrev pub near_start : ℕ → ℕ → Bool
near_start start t = ltb start t && leb t (start + 60)

length-filter_le :
    (p q : ℕ → Bool) (xs : List ℕ)
    → ((x : ℕ) → p x ≡ true → q x ≡ true)
    → length (filter p xs) ≤ length (filter q xs)
length-filter_le p q [] h = omega arith
length-filter_le p q (x ∷ xs) h =
    let rest = length-filter_le p q xs h in
    elim (Bool-cases (p x)) [
      | inl t ↦ rw (t, h x t) (omega (arith, rest))
      | inr n ↦ elim (Bool-cases (q x)) [
        | inl u ↦ rw (n, u) (omega (arith, rest))
        | inr u ↦ rw (n, u) rest
      ]
    ]

filter-narrow :
    (p q : ℕ → Bool) (xs : List ℕ)
    → ((x : ℕ) → p x ≡ true → q x ≡ true)
    → filter p (filter q xs) ≡ filter p xs
filter-narrow p q [] h = refl
filter-narrow p q (x ∷ xs) h = elim (Bool-cases (q x)) [
  | inl u ↦ elim (Bool-cases (p x)) [
    | inl t ↦ rw (u, t) (ap (λ l. x ∷ l) (filter-narrow p q xs h))
    | inr n ↦ rw (u, n) (filter-narrow p q xs h)
  ]
  | inr u ↦ elim (Bool-cases (p x)) [
    | inl t ↦ let e = h x t in cc (e, u)
    | inr n ↦ rw (u, n) (filter-narrow p q xs h)
  ]
]

fresh_narrow : (early late t : ℕ) → early ≤ late → is_fresh late t ≡ true → is_fresh early t ≡ true
fresh_narrow early late t le h = ground (arith, le, h)

-- A window that has the present is one of fresh calls.
window_fresh :
    (start now t : ℕ)
    → near_start start now ≡ true
    → near_start start t ≡ true
    → is_fresh now t ≡ true
window_fresh start now t a b = ground (arith, a, b)

module _ (max_calls : ℕ) (user : Text) where
  exceeded-refused : (calls : List ℕ) → lets_through (exceeded calls) ≡ false
  exceeded-refused [] = refl
  exceeded-refused (t ∷ ts) = refl

  -- A call is refused and keeps the fresh calls, or it is allowed and is added to less than the limit.
  own_call :
      (caller : Text) (now : ℕ) (history : History)
      → text_eq user caller ≡ true
      → let result = check_rate_limit max_calls caller now history in
        let calls = filter (is_fresh now) (history user) in
        ((lets_through result.0 ≡ false) × (result.1 user ≡ calls))
        ⊎ ((lets_through result.0 ≡ true)
            × (result.1 user ≡ calls ++ now ∷ [])
            × (length calls < max_calls))
  unfolding check_rate_limit
  own_call caller now history same =
      let calls = filter (is_fresh now) (history caller) in
      let own = ap (λ u. filter (is_fresh now) (history u)) (sym (text_eq→eq user caller same)) in
      elim (Bool-cases (leb max_calls (length calls))) [
        | inl t ↦ inl (rw t (exceeded-refused calls), rw (t, same) own)
        | inr f ↦
            let less : length calls < max_calls = ground (arith, f) in
            inr (
              rw f refl,
              rw (f, same) (ap (λ l. l ++ now ∷ []) own),
              subst (λ l. length l < max_calls) own less,
            )
      ]

  other_call :
      (caller : Text) (now : ℕ) (history : History)
      → text_eq user caller ≡ false
      → ((check_rate_limit max_calls caller now history).1) user ≡ history user
  unfolding check_rate_limit
  other_call caller now history other =
      elim (Bool-cases (leb max_calls (length (filter (is_fresh now) (history caller))))) [
        | inl t ↦ rw (t, other) refl
        | inr f ↦ rw (f, other) refl
      ]

  -- The history has every allowed call that is fresh.
  abbrev Recorded : ℕ → List ℕ → List ℕ → Type 0
  Recorded clock past calls =
      (now : ℕ) → clock ≤ now → filter (is_fresh now) past ≡ filter (is_fresh now) calls

  abbrev Bounded : List ℕ → Type 0
  Bounded past = (start : ℕ) → length (filter (near_start start) past) ≤ max_calls

  pruned-Recorded :
      (clock now : ℕ) (past calls : List ℕ)
      → clock ≤ now
      → Recorded clock past calls
      → Recorded now past (filter (is_fresh now) calls)
  pruned-Recorded clock now past calls le rec later after =
      rec later (omega (arith, le, after))
      ∙ sym (
          filter-narrow (is_fresh later) (is_fresh now) calls
            (λ t h. fresh_narrow now later t after h))

  added-Recorded :
      (clock now : ℕ) (past calls : List ℕ)
      → Recorded clock past calls
      → Recorded clock (past ++ now ∷ []) (calls ++ now ∷ [])
  added-Recorded clock now past calls rec later after =
      filter-append (is_fresh later) past (now ∷ [])
      ∙ ap (λ l. l ++ filter (is_fresh later) (now ∷ [])) (rec later after)
      ∙ sym (filter-append (is_fresh later) calls (now ∷ []))

  added-Bounded :
      (clock now : ℕ) (past calls : List ℕ)
      → clock ≤ now
      → Recorded clock past calls
      → length (filter (is_fresh now) calls) < max_calls
      → Bounded past
      → Bounded (past ++ now ∷ [])
  added-Bounded clock now past calls le rec few bounded start =
      let parts =
        ap length (filter-append (near_start start) past (now ∷ []))
        ∙ length-append (filter (near_start start) past) (filter (near_start start) (now ∷ [])) in
      elim (Bool-cases (near_start start now)) [
        | inr n ↦
            let none : length (filter (near_start start) (now ∷ [])) ≡ 0 = rw n refl in
            omega (arith, parts, none, bounded start)
        | inl t ↦
            let one : length (filter (near_start start) (now ∷ [])) ≡ 1 = rw t refl in
            let fresh =
              length-filter_le (near_start start) (is_fresh now) past
                (λ x h. window_fresh start now x t h) in
            let same = ap length (rec now le) in omega (arith, parts, one, fresh, same, few)
      ]

  windows-Bounded :
      (calls : List (Text × ℕ)) (history : History) (past : List ℕ) (clock : ℕ)
      → Ascending clock calls
      → Recorded clock past (history user)
      → Bounded past
      → Bounded (past ++ allowed_times max_calls user calls history)
  windows-Bounded [] history past clock asc rec bounded =
      subst Bounded (sym (append-nil past)) bounded
  windows-Bounded ((caller, now) ∷ calls) history past clock asc rec bounded =
      let after = (check_rate_limit max_calls caller now history).1 in
      let pruned = pruned-Recorded clock now past (history user) asc.0 rec in
      elim (Bool-cases (text_eq user caller)) [
        | inr other ↦
            let kept = other_call caller now history other in
            rw other (
              windows-Bounded calls after past now asc.1
                (λ later le.
                  rec later (omega (arith, asc.0, le)) ∙ ap (filter (is_fresh later)) (sym kept))
                bounded)
        | inl same ↦ elim (own_call caller now history same) [
          | inl (refused, kept) ↦
              rw (same, refused)
                (windows-Bounded calls after past now asc.1
                  (subst (Recorded now past) (sym kept) pruned) bounded)
          | inr (allowed, kept, few) ↦
              rw (same, allowed)
                (subst Bounded
                  (append_assoc past (now ∷ []) (allowed_times max_calls user calls after))
                  (windows-Bounded calls after (past ++ now ∷ []) now asc.1
                    (subst (Recorded now (past ++ now ∷ [])) (sym kept)
                      (added-Recorded now now past (filter (is_fresh now) (history user)) pruned))
                    (added-Bounded clock now past (history user) asc.0 rec few bounded)))
        ]
      ]

-- Whoever calls how often, as long as the clock does not go back, at most `max_calls` calls of a user are
-- allowed within sixty seconds.
pub calls_per_minute :
    (max_calls : ℕ) (user : Text) (calls : List (Text × ℕ)) (clock start : ℕ)
    → Ascending clock calls
    → length (filter (near_start start) (allowed_times max_calls user calls (λ u. []))) ≤ max_calls
calls_per_minute max_calls user calls clock start asc =
    windows-Bounded max_calls user calls (λ u. []) [] clock asc (λ now le. refl) (λ s. omega arith)
      start

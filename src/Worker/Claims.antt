-- ===== src/Worker/Claims.antt =====
-- What `claim_next_job` takes (services/worker/src/tkp_worker/main.py).
use tkp_platform.Base.{
  ◌⊎◌, ℕ, ◌+◌, ◌≤◌, ◌≡◌, ◌≢◌, refl, sym, ap, subst, ◌∙◌, ◌↔◌, inl, inr, Bool, true, false, Option,
  none, some, List, [], ◌∷◌, ◌++◌, arith, leb, ◌==◌, if◌then◌else◌, Bool-cases, Option-cases,
  some_inj, All, filter, any, update_where,
}
use tkp_platform.Base.Text.{Text}
use tkp_platform.Worker.Rows.{JobStatus, IngestionJob, Database, is_waiting}
use tkp_platform.Worker.Claim.{claimable, oldest, take_job, ClaimedJob, returned, claim_next_job}

-- Every job that passes the test was created no earlier.
abbrev pub NoEarlier : (IngestionJob → Bool) → ℕ → List IngestionJob → Type 0
NoEarlier p t = All (λ (k : IngestionJob). p k ≡ true → t ≤ k.created_at)

module _ (p : IngestionJob → Bool) where
  oldest-none : (js : List IngestionJob) → oldest (filter p js) ≡ none → any p js ≡ false
  unfolding oldest
  oldest-none [] h = refl
  oldest-none (j ∷ js) h = ground (arith, oldest-none js)

  NoEarlier-weaken :
      (s t : ℕ) (js : List IngestionJob) → s ≤ t → NoEarlier p t js → NoEarlier p s js
  NoEarlier-weaken s t [] le h = tt
  NoEarlier-weaken s t (j ∷ js) le h = (λ e. omega (arith, h.0 e), NoEarlier-weaken s t js le h.1)

  NoEarlier-none : (t : ℕ) (js : List IngestionJob) → any p js ≡ false → NoEarlier p t js
  NoEarlier-none t [] h = tt
  NoEarlier-none t (j ∷ js) h = (λ e. ground arith, NoEarlier-none t js (ground arith))

  -- The choice that `oldest` makes between a row and the best of the later rows.
  abbrev older : IngestionJob → Option IngestionJob → IngestionJob
  older j none = j
  older j (some k) = if leb j.created_at k.created_at then j else k

  oldest-cons :
      (j : IngestionJob) (js : List IngestionJob) → oldest (j ∷ js) ≡ some (older j (oldest js))
  unfolding oldest
  oldest-cons j js = elim (Option-cases (oldest js)) [ inl e ↦ rw e | inr (k, e) ↦ rw e ]

  older-NoEarlier :
      (j : IngestionJob) (js : List IngestionJob)
      → p j ≡ true
      → ((c : IngestionJob)
          → oldest (filter p js) ≡ some c
          → (p c ≡ true) × NoEarlier p c.created_at js)
      → let c = older j (oldest (filter p js)) in
        (p c ≡ true) × ((p j ≡ true → c.created_at ≤ j.created_at) × NoEarlier p c.created_at js)
  older-NoEarlier j js pj ih = elim (Option-cases (oldest (filter p js))) [
    | inl e ↦ rw e (pj, (λ _. omega arith, NoEarlier-none j.created_at js (oldest-none js e)))
    | inr (k, e) ↦ elim (Bool-cases (leb j.created_at k.created_at)) [
      | inl le ↦ rw e (
          rw le (
            pj,
            (
              λ _. omega arith,
              NoEarlier-weaken j.created_at k.created_at js (ground arith) (ih k e).1,
            ),
          ))
      | inr gt ↦ rw e (rw gt ((ih k e).0, (λ _. ground arith, (ih k e).1)))
    ]
  ]

  pub oldest-some :
      (js : List IngestionJob) (c : IngestionJob)
      → oldest (filter p js) ≡ some c
      → (p c ≡ true) × NoEarlier p c.created_at js
  oldest-some [] c h = unfold oldest in cc h
  oldest-some (j ∷ js) c h = elim (Bool-cases (p j)) [
    | inl t ↦
        let e : some (older j (oldest (filter p js))) ≡ some c =
          sym (oldest-cons j (filter p js)) ∙ rw t at h in
        subst (λ (k : IngestionJob). (p k ≡ true) × NoEarlier p k.created_at (j ∷ js)) (some_inj e)
          (older-NoEarlier j js t (oldest-some js))
    | inr f ↦ let r = oldest-some js c (rw f at h) in (r.0, (λ e. cc (e, f), r.1))
  ]

  -- The chosen row is the first one, or the one chosen of the rest.
  pub oldest-cases :
      (j : IngestionJob) (js : List IngestionJob) (c : IngestionJob)
      → oldest (filter p (j ∷ js)) ≡ some c
      → (j ≡ c) ⊎ (oldest (filter p js) ≡ some c)
  oldest-cases j js c h = elim (Bool-cases (p j)) [
    | inr f ↦ inr (rw f at h)
    | inl t ↦
        let e : some (older j (oldest (filter p js))) ≡ some c =
          sym (oldest-cons j (filter p js)) ∙ rw t at h in
        elim (Option-cases (oldest (filter p js))) [
          | inl none_left ↦ inl (some_inj (rw none_left at e))
          | inr (k, chosen) ↦ elim (Bool-cases (leb j.created_at k.created_at)) [
            | inl le ↦ inl (some_inj (rw (chosen, le) at e))
            | inr gt ↦ inr (chosen ∙ rw (chosen, gt) at e)
          ]
        ]
  ]

  -- What holds of every row holds of the chosen one.
  pub oldest-All :
      (Q : IngestionJob → Type 0) (js : List IngestionJob) (c : IngestionJob)
      → All Q js
      → oldest (filter p js) ≡ some c
      → Q c
  oldest-All Q [] c q h = unfold oldest in cc h
  oldest-All Q (j ∷ js) c q h = elim (oldest-cases j js c h) [
    | inl e ↦ subst Q e q.0
    | inr e ↦ oldest-All Q js c q.1 e
  ]

-- The chosen row is one of the rows.
oldest-row :
    (p : IngestionJob → Bool) (js : List IngestionJob) (c : IngestionJob)
    → oldest (filter p js) ≡ some c
    → (front : List IngestionJob) × (back : List IngestionJob) × (js ≡ front ++ c ∷ back)
oldest-row p [] c h = unfold oldest in cc h
oldest-row p (j ∷ js) c h = elim (oldest-cases p j js c h) [
  | inl e ↦ ([], js, ap (λ x. x ∷ js) e)
  | inr e ↦ let (front, back, same) = oldest-row p js c e in (j ∷ front, back, ap (λ l. j ∷ l) same)
]

oldest-passes :
    (p : IngestionJob → Bool) (js : List IngestionJob) (c : IngestionJob)
    → oldest (filter p js) ≡ some c
    → any p js ≡ true
oldest-passes p [] c h = unfold oldest in cc h
oldest-passes p (j ∷ js) c h = elim (Bool-cases (p j)) [
  | inl t ↦ rw t refl
  | inr f ↦ rw f (oldest-passes p js c (rw f at h))
]

-- A job that is being processed, or is done, cannot be claimed, however long it has been locked.
pub claimable_waiting :
    (held : ℕ → Bool) (now timeout : ℕ) (j : IngestionJob)
    → claimable held now timeout j ≡ true
    → is_waiting j.status ≡ true
unfolding claimable
claimable_waiting held now timeout j h = ground arith

-- After a claim every row with the claimed id is being processed.
unfoldable pub TakenIsProcessing : ℕ → IngestionJob → Type 0
TakenIsProcessing id k = k.id ≡ id → k.status ≡ JobStatus.processing

taken-All :
    (now id : ℕ) (worker_id : Text) (js : List IngestionJob)
    → All (TakenIsProcessing id) (update_where (λ j. j.id == id) (take_job now worker_id) js)
unfolding TakenIsProcessing take_job
taken-All now id worker_id [] = tt
taken-All now id worker_id (j ∷ js) = elim (Bool-cases (j.id == id)) [
  | inl t ↦ rw t (λ _. refl, taken-All now id worker_id js)
  | inr f ↦ rw f (λ e. ground arith, taken-All now id worker_id js)
]

module _ (held : ℕ → Bool) (now : ℕ) (worker_id : Text) (timeout : ℕ) (db : Database) where
  abbrev candidate : Option IngestionJob
  candidate = oldest (filter (claimable held now timeout) db.jobs)

  -- The row behind a successful claim.
  pub claim-candidate :
      (c : ClaimedJob)
      → (claim_next_job held now worker_id timeout db).0 ≡ some c
      → (j : IngestionJob) × (candidate ≡ some j) × (returned (take_job now worker_id j) ≡ c)
  unfolding claim_next_job
  claim-candidate c h = elim (Option-cases candidate) [
    | inl e ↦ cc (rw e at h)
    | inr (j, e) ↦ (j, e, some_inj (rw e at h))
  ]

  -- A claim takes a job of the table that waits, is due, is not locked by another worker and is not held by
  -- another transaction; no job of that kind is older, and the claim counts as an attempt.
  pub claim_takes_oldest :
      (c : ClaimedJob)
      → (claim_next_job held now worker_id timeout db).0 ≡ some c
      → (j : IngestionJob) × (front : List IngestionJob) × (back : List IngestionJob) × (db.jobs
          ≡ front ++ j ∷ back)
        × (claimable held now timeout j ≡ true)
        × NoEarlier (claimable held now timeout) j.created_at db.jobs
        × (c.id ≡ j.id)
        × (c.attempt_count ≡ j.attempt_count + 1)
  unfolding take_job
  claim_takes_oldest c h =
      let (j, e, r) = claim-candidate c h in
      let (fits, first) = oldest-some (claimable held now timeout) db.jobs j e in
      let (front, back, row) = oldest-row (claimable held now timeout) db.jobs j e in
      (
        j,
        front,
        back,
        row,
        fits,
        first,
        sym (ap (λ (k : ClaimedJob). k.id) r),
        sym (ap (λ (k : ClaimedJob). k.attempt_count) r),
      )

  candidate-none : any (claimable held now timeout) db.jobs ≡ false → candidate ≡ none
  candidate-none h = elim (Option-cases candidate) [
    | inl e ↦ e
    | inr (j, e) ↦ cc (oldest-passes (claimable held now timeout) db.jobs j e, h)
  ]

  -- A claim comes back empty exactly when no job can be claimed.
  pub claim_none_iff :
      ((claim_next_job held now worker_id timeout db).0 ≡ none)
      ↔ (any (claimable held now timeout) db.jobs ≡ false)
  unfolding claim_next_job
  claim_none_iff = (
    λ h. elim (Option-cases candidate) [
      | inl e ↦ oldest-none (claimable held now timeout) db.jobs e
      | inr (j, e) ↦ cc (rw e at h)
    ],
    λ h. rw (candidate-none h) refl,
  )

  pub claim-jobs :
      (j : IngestionJob)
      → candidate ≡ some j
      → (claim_next_job held now worker_id timeout db).1
        ≡ record db { jobs = update_where (λ k. k.id == j.id) (take_job now worker_id) db.jobs }
  unfolding claim_next_job
  claim-jobs j e = rw e

  pub claim_none-db :
      (claim_next_job held now worker_id timeout db).0 ≡ none
      → (claim_next_job held now worker_id timeout db).1 ≡ db
  unfolding claim_next_job
  claim_none-db h = elim (Option-cases candidate) [ inl e ↦ rw e | inr (j, e) ↦ cc (rw e at h) ]

  pub claim_takes-All :
      (c : ClaimedJob)
      → (claim_next_job held now worker_id timeout db).0 ≡ some c
      → All (TakenIsProcessing c.id) (claim_next_job held now worker_id timeout db).1.jobs
  claim_takes-All c h =
      let (j, e, r) = claim-candidate c h in
      rw (claim-jobs j e) (
        subst
          (λ id.
            All (TakenIsProcessing id)
              (update_where (λ k. k.id == j.id) (take_job now worker_id) db.jobs))
          (ap (λ (k : ClaimedJob). k.id) r)
          (unfold take_job in taken-All now j.id worker_id db.jobs))

-- A job that one claim has taken is not taken by the claim that follows it, whatever the other worker, its
-- clock and its lock timeout are.
pub claim_exclusive :
    (held held' : ℕ → Bool) (now now' : ℕ) (worker_id worker_id' : Text) (timeout timeout' : ℕ)
    (db : Database) (a b : ClaimedJob)
    → (claim_next_job held now worker_id timeout db).0 ≡ some a
    → (claim_next_job held' now' worker_id' timeout'
        (claim_next_job held now worker_id timeout db).1).0
      ≡ some b
    → a.id ≢ b.id
unfolding TakenIsProcessing take_job
claim_exclusive held held' now now' worker_id worker_id' timeout timeout' db a b h k e =
    let after = (claim_next_job held now worker_id timeout db).1 in
    let (j, chosen, r) = claim-candidate held' now' worker_id' timeout' after b k in
    let waits =
      claimable_waiting held' now' timeout' j
        (oldest-some (claimable held' now' timeout') after.jobs j chosen).0 in
    let taken =
      oldest-All (claimable held' now' timeout') (TakenIsProcessing a.id) after.jobs j
        (claim_takes-All held now worker_id timeout db a h) chosen in
    let s : j.status ≡ JobStatus.processing = taken (ap (λ (c : ClaimedJob). c.id) r ∙ sym e) in
    cc (ap is_waiting s, waits)

-- ===== src/Worker/Manual.antt =====
-- What the requests of an operator leave behind (services/api/src/tkp_api/api/documents.py).
use tkp_platform.Base.{
  ℕ, ◌≡◌, ◌≤◌, refl, inl, inr, true, false, Option, List, [], ◌∷◌, ◌==◌, arith, Bool-cases,
  Option-cases, ◌⊎◌, ==→eq, sym, subst, All, find, update_where,
}
use tkp_platform.Base.Result.{ok, Result-cases, ok_inj}
use tkp_platform.Base.TableLaws.{All-update_where, find-passes}
use tkp_platform.Base.Text.{Text}
use tkp_platform.Worker.Rows.{IngestionJob, Database}
use tkp_platform.Worker.Claim.{claimable}
use tkp_platform.Worker.Lifecycle.{IsConsistent}
use tkp_platform.Worker.Rounds.{AllConsistent}
use tkp_platform.Worker.Operator.{
  Operator, find_job, requeued, retry_guard, retry_ingestion_job, dead_letter_reason, dead_lettered,
  dead_letter_guard, dead_letter_ingestion_job, mark_document, mark_version,
}

requeued-IsConsistent : (now : ℕ) (j : IngestionJob) → IsConsistent (requeued now j)
unfolding requeued
requeued-IsConsistent now j = ground arith

dead_lettered-IsConsistent :
    (now : ℕ) (t : Text) (j : IngestionJob) → IsConsistent (dead_lettered now t j)
unfolding dead_lettered
dead_lettered-IsConsistent now t j = ground arith

module _ (o : Operator) (id : ℕ) (db : Database) where
  find_job-id : (j : IngestionJob) → find_job o id db ≡ ok j → j.id ≡ id
  unfolding find_job
  find_job-id j h = elim (Option-cases (find (λ (x : IngestionJob). x.id == id) db.jobs)) [
    | inl e ↦ elim (Bool-cases o.may_act) [ inl t ↦ cc (rw (t, e) at h) | inr t ↦ cc (rw t at h) ]
    | inr (x, e) ↦ elim (Bool-cases o.may_act) [
      | inr t ↦ cc (rw t at h)
      | inl t ↦ elim (Bool-cases (x.tenant_id == o.tenant_id)) [
        | inr f ↦ cc (rw (t, e, f) at h)
        | inl own ↦ elim (Bool-cases (o.may_write x.kb_id)) [
          | inr f ↦ cc (rw (t, e, own, f) at h)
          | inl w ↦
              let same = ok_inj (rw (t, e, own, w) at h) in
              let found = find-passes (λ (x : IngestionJob). x.id == id) db.jobs x e in
              subst (λ (y : IngestionJob). y.id ≡ id) same (==→eq x.id id found)
        ]
      ]
    ]
  ]

  pub retry-jobs :
      (now : ℕ) (db' : Database)
      → retry_ingestion_job o now id db ≡ ok db'
      → db'.jobs ≡ update_where (λ (x : IngestionJob). x.id == id) (requeued now) db.jobs
  unfolding retry_ingestion_job mark_document mark_version
  retry-jobs now db' h = elim (Result-cases (find_job o id db)) [
    | inr (x, e) ↦ cc (rw e at h)
    | inl (j, e) ↦ elim (Result-cases (retry_guard j.status)) [
      | inr (x, e') ↦ cc (rw (e, e') at h)
      | inl (x, e') ↦ let same = ok_inj (rw (e, e') at h) in rw (sym same, find_job-id j e) refl
    ]
  ]

  dead_letter-jobs :
      (now : ℕ) (reason : Option Text) (db' : Database)
      → dead_letter_ingestion_job o now reason id db ≡ ok db'
      → db'.jobs
        ≡ update_where
            (λ (x : IngestionJob). x.id == id)
            (dead_lettered now (dead_letter_reason reason))
            db.jobs
  unfolding dead_letter_ingestion_job mark_document mark_version
  dead_letter-jobs now reason db' h = elim (Result-cases (find_job o id db)) [
    | inr (x, e) ↦ cc (rw e at h)
    | inl (j, e) ↦ elim (Result-cases (dead_letter_guard j.status)) [
      | inr (x, e') ↦ cc (rw (e, e') at h)
      | inl (x, e') ↦ let same = ok_inj (rw (e, e') at h) in rw (sym same, find_job-id j e) refl
    ]
  ]

-- A request of an operator, be it a retry or a dead letter, keeps every job consistent.
pub operator-IsConsistent :
    (o : Operator) (now : ℕ) (reason : Option Text) (id : ℕ) (db db' : Database)
    → AllConsistent db
    → (retry_ingestion_job o now id db ≡ ok db')
      ⊎ (dead_letter_ingestion_job o now reason id db ≡ ok db')
    → AllConsistent db'
operator-IsConsistent o now reason id db db' all (inl h) =
    subst (All IsConsistent) (sym (retry-jobs o id db now db' h)) (
      All-update_where IsConsistent _ (requeued now) db.jobs (λ x k t. requeued-IsConsistent now x)
        all)
operator-IsConsistent o now reason id db db' all (inr h) =
    let update = dead_lettered now (dead_letter_reason reason) in
    subst (All IsConsistent) (sym (dead_letter-jobs o id db now reason db' h)) (
      All-update_where IsConsistent _ update db.jobs
        (λ x k t. dead_lettered-IsConsistent now (dead_letter_reason reason) x) all)

pub All-trivial : (xs : List IngestionJob) → All (λ (j : IngestionJob). Unit {0}) xs
All-trivial [] = tt
All-trivial (x ∷ xs) = (tt, All-trivial xs)

pub requeued-claimable :
    (now t timeout : ℕ) (j : IngestionJob)
    → now ≤ t
    → claimable (λ _. false) t timeout (requeued now j) ≡ true
unfolding claimable requeued
requeued-claimable now t timeout j h = ground arith

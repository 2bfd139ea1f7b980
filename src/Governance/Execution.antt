-- ===== src/Governance/Execution.antt =====
-- What an executed deletion leaves behind (services/api/src/tkp_api/governance/deletion.py).
use tkp_platform.Base.{
  ℕ, ◌≡◌, refl, ap, ◌∙◌, subst, inl, inr, Bool, true, false, Option, none, some, List, [], ◌∷◌,
  ◌++◌, ◌==◌, find, update_where, arith, Bool-cases, Option-cases, some_inj, ==_refl,
}
use tkp_platform.Base.TextLaws.{text_eq_refl}
use tkp_platform.Base.TableLaws.{find-append_new, find-passes}
use tkp_platform.Governance.Rows.{
  ResourceType, DeletionRequest, DeletionProof, Tables, GovernanceDb,
}
use tkp_platform.Governance.Erase.{resource_exists, has_snapshot, delete_statements}
use tkp_platform.Governance.Deletion.{
  Hashing, Run, approved_request, completed_row, new_proof, delete_resource, finish_deletion,
  execute_deletion, check_proof, verify_deletion_proof,
}
use tkp_platform.Governance.Gone.{statements_gone}

-- After an update that takes every row out of the test, no row is found.
find-none_left {ℓ} :
    {A : Type ℓ} (p : A → Bool) (f : A → A) (xs : List A)
    → ((x : A) → p (f x) ≡ false)
    → find p (update_where p f xs) ≡ none
find-none_left p f [] h = refl
find-none_left p f (x ∷ xs) h = elim (Bool-cases (p x)) [
  | inl t ↦ rw (t, h x) (find-none_left p f xs h)
  | inr n ↦ rw (n, n) (find-none_left p f xs h)
]

module _ (h : Hashing) (e : Run) (id tenant : ℕ) (db : GovernanceDb) where
  -- What the proof of an execution attests, in the database that the execution leaves.
  pub record Attested (p : DeletionProof) (db' : GovernanceDb) : Type 0 where
    pub verifies : verify_deletion_proof h p.proof_id db' ≡ true
    pub of_request : (p.request_id ≡ id) × (p.tenant_id ≡ tenant)
    pub gone : resource_exists p.resource_type p.resource_id tenant db'.tables ≡ false
    pub once : find (approved_request id tenant) db'.requests ≡ none

  abbrev db_after : Tables → DeletionRequest → GovernanceDb
  db_after t r = record {
    requests =
        update_where (approved_request r.id r.tenant_id)
          (completed_row e.now e.executed_by e.proof_id) db.requests;
    proofs = db.proofs ++ new_proof h e r db.tables ∷ [];
    tables = t;
  }

  completed-not_approved :
      (r : DeletionRequest) (x : DeletionRequest)
      → approved_request r.id r.tenant_id (completed_row e.now e.executed_by e.proof_id x) ≡ false
  unfolding completed_row
  completed-not_approved r x = ground arith

  new_proof-verifies :
      (r : DeletionRequest) (t : Tables)
      → find (λ (p : DeletionProof). p.proof_id == e.proof_id) db.proofs ≡ none
      → verify_deletion_proof h e.proof_id (db_after t r) ≡ true
  unfolding verify_deletion_proof new_proof
  new_proof-verifies r t fresh =
      ap (check_proof h) (
        find-append_new (λ (p : DeletionProof). p.proof_id == e.proof_id)
          (new_proof h e r db.tables) db.proofs fresh (==_refl e.proof_id))
      ∙ text_eq_refl (new_proof h e r db.tables).proof_hash

  attested :
      (r : DeletionRequest) (t : Tables)
      → find (λ (p : DeletionProof). p.proof_id == e.proof_id) db.proofs ≡ none
      → r.id ≡ id
      → r.tenant_id ≡ tenant
      → delete_statements r.resource_id r.tenant_id r.resource_type db.tables ≡ some t
      → Attested (new_proof h e r db.tables) (db_after t r)
  unfolding new_proof
  attested r t fresh same own done = record {
    verifies = new_proof-verifies r t fresh;
    of_request = (same, own);
    gone =
        subst (λ n. resource_exists r.resource_type r.resource_id n t ≡ false) own
          (statements_gone r.resource_id r.tenant_id r.resource_type db.tables t done);
    once =
        subst (λ i. find (approved_request i tenant) (db_after t r).requests ≡ none) same
          (subst (λ n. find (approved_request r.id n) (db_after t r).requests ≡ none) own
            (find-none_left (approved_request r.id r.tenant_id)
              (completed_row e.now e.executed_by e.proof_id) db.requests
              (completed-not_approved r)));
  }

  finish-Attested :
      (r : DeletionRequest) (d : Option Tables) (p : DeletionProof) (db' : GovernanceDb)
      → find (λ (p : DeletionProof). p.proof_id == e.proof_id) db.proofs ≡ none
      → r.id ≡ id
      → r.tenant_id ≡ tenant
      → ((t : Tables)
          → d ≡ some t
          → delete_statements r.resource_id r.tenant_id r.resource_type db.tables ≡ some t)
      → finish_deletion h e r db d ≡ (some p, db')
      → Attested p db'
  finish-Attested r none p db' fresh same own del done = cc (ap (λ x. x.0) done)
  finish-Attested r (some t) p db' fresh same own del done =
      subst (Attested p) (ap (λ x. x.1) done) (
        subst (λ (q : DeletionProof). Attested q (db_after t r)) (some_inj (ap (λ x. x.0) done))
          (attested r t fresh same own (del t refl)))

  resource-statements :
      (fails : Bool) (type : ResourceType) (resource owner : ℕ) (t u : Tables)
      → delete_resource fails type resource owner t ≡ some u
      → delete_statements resource owner type t ≡ some u
  resource-statements true type resource owner t u x = cc
  resource-statements false type resource owner t u x = x

  -- An execution that returns a proof has deleted the resource, the proof is found and verifies, and
  -- the request cannot be executed again.
  pub execute_attests :
      (p : DeletionProof) (db' : GovernanceDb)
      → find (λ (p : DeletionProof). p.proof_id == e.proof_id) db.proofs ≡ none
      → execute_deletion h e id tenant db ≡ (some p, db')
      → Attested p db'
  unfolding execute_deletion
  execute_attests p db' fresh done =
      elim (Option-cases (find (approved_request id tenant) db.requests)) [
        | inl n ↦ cc (ap (λ x. x.0) (rw n at done))
        | inr (r, f) ↦
            let t = find-passes (approved_request id tenant) db.requests r f in
            let ran = rw f at done in
            elim (Bool-cases (has_snapshot r.resource_type r.resource_id r.tenant_id db.tables)) [
              | inr n ↦ cc (ap (λ x. x.0) (rw n at ran))
              | inl s ↦
                  finish-Attested r
                    (delete_resource e.fails r.resource_type r.resource_id r.tenant_id db.tables) p
                    db' fresh (ground arith) (ground arith)
                    (λ u.
                      resource-statements e.fails r.resource_type r.resource_id r.tenant_id
                        db.tables u)
                    (rw s at ran)
            ]
      ]

-- The types of which there is a snapshot have DELETE statements.
statements_of_snapshot :
    (type : ResourceType) (resource owner : ℕ) (t : Tables)
    → has_snapshot type resource owner t ≡ true
    → (u : Tables) × (delete_statements resource owner type t ≡ some u)
unfolding has_snapshot delete_statements
statements_of_snapshot ResourceType.document resource owner t s = (_, refl)
statements_of_snapshot ResourceType.conversation resource owner t s = (_, refl)
statements_of_snapshot ResourceType.user resource owner t s = (_, refl)
statements_of_snapshot (ResourceType.other name) resource owner t s = cc

-- An approved request whose resource is there is executed, unless the database raises: a proof is
-- returned, which is stored and verifies, it names the resource of the request, that resource is gone from the
-- tenant, and the request is not found approved again. The id of the proof is new.
pub execute_completes :
    (h : Hashing) (e : Run) (id tenant : ℕ) (db : GovernanceDb) (r : DeletionRequest)
    → find (approved_request id tenant) db.requests ≡ some r
    → has_snapshot r.resource_type r.resource_id r.tenant_id db.tables ≡ true
    → e.fails ≡ false
    → find (λ (p : DeletionProof). p.proof_id == e.proof_id) db.proofs ≡ none
    → (p : DeletionProof) × (db' : GovernanceDb) × (execute_deletion h e id tenant db
        ≡ (some p, db'))
      × (p.resource_type ≡ r.resource_type)
      × (p.resource_id ≡ r.resource_id)
      × (resource_exists r.resource_type r.resource_id tenant db'.tables ≡ false)
      × Attested h e id tenant db p db'
unfolding execute_deletion new_proof
execute_completes h e id tenant db r found there fine fresh =
    let (u, done) =
      statements_of_snapshot r.resource_type r.resource_id r.tenant_id db.tables there in
    let runs : execute_deletion h e id tenant db
        ≡ (some (new_proof h e r db.tables), db_after h e id tenant db u r) =
      rw (found, there, fine, done) refl in
    let attests = execute_attests h e id tenant db _ _ fresh runs in
    (new_proof h e r db.tables, _, runs, refl, refl, attests.gone, attests)

-- ===== src/Governance/Lifecycle.antt =====
-- The lifecycle of a deletion request, and that the service follows it
-- (services/api/src/tkp_api/governance/deletion.py).
use tkp_platform.Base.{
  ℕ, ◌≡◌, refl, sym, subst, inl, inr, ◌⊎◌, Bool, true, Option, none, some, List, [], ◌∷◌, ◌++◌, All,
  any, find, update_where, arith, Bool-cases, Option-cases,
}
use tkp_platform.Base.Result.{ok, ok_inj}
use tkp_platform.Base.TableLaws.{find-passes}
use tkp_platform.Base.Text.{Text}
use tkp_platform.Governance.Rows.{
  ResourceType, RequestStatus, pending, approved, rejected, cancelled, expired, completed, failed,
  DeletionRequest, Tables, GovernanceDb,
}
use tkp_platform.Governance.Erase.{has_snapshot, resource_exists}
use tkp_platform.Governance.Deletion.{
  new_request, create_deletion_request, approved_row, approve_deletion_request, may_cancel,
  cancelled_row, cancel_deletion_request, rejected_row, reject_deletion_request, is_overdue,
  expired_row, expire_pending_requests, failed_row, mark_request_failed, completed_row, Hashing,
  Run, is_supported, pending_for, pending_request, approved_request, delete_resource,
  finish_deletion, run_deletion, execute_deletion,
}

-- The moves that a request may make; a request that stands in no first place of a move is final.
infix 40 ◌⟶◌
pub data ◌⟶◌ : RequestStatus → RequestStatus → Type 0 where
  approve : pending ⟶ approved
  reject : pending ⟶ rejected
  cancel : pending ⟶ cancelled
  expire : pending ⟶ expired
  complete : approved ⟶ completed
  fail : approved ⟶ failed

-- Any number of moves.
infix 40 ◌⟶*◌
pub data ◌⟶*◌ : RequestStatus → RequestStatus → Type 0 where
  here : {s : RequestStatus} → s ⟶* s
  then : {s t u : RequestStatus} → s ⟶ t → t ⟶* u → s ⟶* u

abbrev pub IsFinal : RequestStatus → Type 0
IsFinal pending = ⊥
IsFinal approved = ⊥
IsFinal _ = Unit

-- What is asked for, and of which tenant, stays.
abbrev pub SameRequest : DeletionRequest → DeletionRequest → Type 0
SameRequest x y =
    (y.id ≡ x.id)
    × (y.tenant_id ≡ x.tenant_id)
    × (y.resource_type ≡ x.resource_type)
    × (y.resource_id ≡ x.resource_id)

-- The row of the tenant's request after a move.
pub record Advanced (tenant : ℕ) (x y : DeletionRequest) : Type 0 where
  pub own : x.tenant_id ≡ tenant
  pub same : SameRequest x y
  pub move : x.status ⟶ y.status

-- Row by row, a request is as it was or has moved; what is behind the old rows is pending.
abbrev pub Follows : ℕ → List DeletionRequest → List DeletionRequest → Type 0
Follows tenant [] ys =
    All (λ (y : DeletionRequest). (y.tenant_id ≡ tenant) × (y.status ≡ pending)) ys
Follows tenant (x ∷ xs) [] = ⊥
Follows tenant (x ∷ xs) (y ∷ ys) = ((x ≡ y) ⊎ Advanced tenant x y) × Follows tenant xs ys

module _ (tenant : ℕ) where
  pub Follows-refl : (xs : List DeletionRequest) → Follows tenant xs xs
  Follows-refl [] = tt
  Follows-refl (x ∷ xs) = (inl refl, Follows-refl xs)

  Follows-new :
      (xs : List DeletionRequest) (y : DeletionRequest)
      → y.tenant_id ≡ tenant
      → y.status ≡ pending
      → Follows tenant xs (xs ++ y ∷ [])
  Follows-new [] y own h = ((own, h), tt)
  Follows-new (x ∷ xs) y own h = (inl refl, Follows-new xs y own h)

  Follows-update :
      (p : DeletionRequest → Bool) (f : DeletionRequest → DeletionRequest)
      (xs : List DeletionRequest)
      → ((x : DeletionRequest) → p x ≡ true → Advanced tenant x (f x))
      → Follows tenant xs (update_where p f xs)
  Follows-update p f [] h = tt
  Follows-update p f (x ∷ xs) h = elim (Bool-cases (p x)) [
    | inl t ↦ rw t (inr (h x t), Follows-update p f xs h)
    | inr n ↦ rw n (inl refl, Follows-update p f xs h)
  ]

  -- An update of the tenant's requests in one state to another state.
  Follows-moves :
      (p : DeletionRequest → Bool) (f : DeletionRequest → DeletionRequest) (a b : RequestStatus)
      → ((x : DeletionRequest) → p x ≡ true → (x.tenant_id ≡ tenant) × (x.status ≡ a))
      → ((x : DeletionRequest) → SameRequest x (f x) × ((f x).status ≡ b))
      → a ⟶ b
      → (xs : List DeletionRequest) → Follows tenant xs (update_where p f xs)
  Follows-moves p f a b only keeps m xs = Follows-update p f xs (λ x t. record {
    own = (only x t).0;
    same = (keeps x).0;
    move = subst (λ s. x.status ⟶ s) (sym (keeps x).1) (subst (λ s. s ⟶ b) (sym (only x t).1) m);
  })

  pub approve-Follows :
      (now id by : ℕ) (db : GovernanceDb)
      → Follows tenant db.requests (approve_deletion_request now id tenant by db).1.requests
  unfolding approve_deletion_request approved_row
  approve-Follows now id by db =
      Follows-moves (pending_request id tenant) (approved_row now by) pending approved
        (λ x t. (ground arith, ground arith)) (λ x. ((refl, refl, refl, refl), refl)) approve
        db.requests

  pub cancel-Follows :
      (now id requester : ℕ) (is_admin : Bool) (db : GovernanceDb)
      → Follows tenant db.requests
          (cancel_deletion_request now id tenant requester is_admin db).1.requests
  unfolding cancel_deletion_request cancelled_row
  cancel-Follows now id requester is_admin db =
      Follows-moves (may_cancel id tenant requester is_admin) (cancelled_row now) pending cancelled
        (λ x t. (ground arith, ground arith)) (λ x. ((refl, refl, refl, refl), refl)) cancel
        db.requests

  pub reject-Follows :
      (now id by : ℕ) (reason : Text) (db : GovernanceDb)
      → Follows tenant db.requests (reject_deletion_request now id tenant by reason db).1.requests
  unfolding reject_deletion_request rejected_row
  reject-Follows now id by reason db =
      Follows-moves (pending_request id tenant) (rejected_row now by reason) pending rejected
        (λ x t. (ground arith, ground arith)) (λ x. ((refl, refl, refl, refl), refl)) reject
        db.requests

  pub expire-Follows :
      (now : ℕ) (db : GovernanceDb)
      → Follows tenant db.requests (expire_pending_requests now tenant db).requests
  unfolding expire_pending_requests expired_row
  expire-Follows now db =
      Follows-moves (is_overdue now tenant) (expired_row now) pending expired
        (λ x t. (ground arith, ground arith)) (λ x. ((refl, refl, refl, refl), refl)) expire
        db.requests

  failed-Follows :
      (now id : ℕ) (db : GovernanceDb)
      → Follows tenant db.requests (mark_request_failed now id tenant db).requests
  unfolding mark_request_failed failed_row
  failed-Follows now id db =
      Follows-moves (approved_request id tenant) (failed_row now) approved failed
        (λ x t. (ground arith, ground arith)) (λ x. ((refl, refl, refl, refl), refl)) fail
        db.requests

  completed-Follows :
      (now by proof id : ℕ) (rows : List DeletionRequest)
      → Follows tenant rows
          (update_where (approved_request id tenant) (completed_row now by proof) rows)
  unfolding completed_row
  completed-Follows now by proof id =
      Follows-moves (approved_request id tenant) (completed_row now by proof) approved completed
        (λ x t. (ground arith, ground arith)) (λ x. ((refl, refl, refl, refl), refl)) complete

  pub create-Follows :
      (id now user : ℕ) (type : ResourceType) (resource : ℕ) (reason : Text) (db db' : GovernanceDb)
      → create_deletion_request id now tenant user type resource reason db ≡ ok db'
      → Follows tenant db.requests db'.requests
  unfolding create_deletion_request new_request
  create-Follows id now user type resource reason db db' h = elim (Bool-cases (is_supported type)) [
    | inr n ↦ cc (rw n at h)
    | inl s ↦ elim (Bool-cases (resource_exists type resource tenant db.tables)) [
      | inr n ↦ cc (rw (s, n) at h)
      | inl x ↦ elim (Bool-cases (any (pending_for tenant type resource) db.requests)) [
        | inl t ↦ cc (rw (s, x, t) at h)
        | inr n ↦
            subst (λ (d : GovernanceDb). Follows tenant db.requests d.requests)
              (ok_inj (rw (s, x, n) at h))
              (Follows-new db.requests (new_request id now tenant user type resource reason) refl
                refl)
      ]
    ]
  ]

  found_of_tenant :
      (id : ℕ) (rows : List DeletionRequest) (r : DeletionRequest)
      → find (approved_request id tenant) rows ≡ some r
      → r.tenant_id ≡ tenant
  found_of_tenant id rows r h =
      let t = find-passes (approved_request id tenant) rows r h in ground arith

finish-Follows :
    (h : Hashing) (e : Run) (r : DeletionRequest) (db : GovernanceDb) (t : Option Tables)
    → Follows r.tenant_id db.requests (finish_deletion h e r db t).1.requests
finish-Follows h e r db none = failed-Follows r.tenant_id e.now r.id db
finish-Follows h e r db (some t) =
    completed-Follows r.tenant_id e.now e.executed_by e.proof_id r.id db.requests

run-Follows :
    (h : Hashing) (e : Run) (r : DeletionRequest) (db : GovernanceDb)
    → Follows r.tenant_id db.requests (run_deletion h e (some r) db).1.requests
run-Follows h e r db =
    elim (Bool-cases (has_snapshot r.resource_type r.resource_id r.tenant_id db.tables)) [
      | inl t ↦ rw t (
          finish-Follows h e r db
            (delete_resource e.fails r.resource_type r.resource_id r.tenant_id db.tables))
      | inr n ↦ rw n (failed-Follows r.tenant_id e.now r.id db)
    ]

pub execute-Follows :
    (h : Hashing) (e : Run) (id tenant : ℕ) (db : GovernanceDb)
    → Follows tenant db.requests (execute_deletion h e id tenant db).1.requests
unfolding execute_deletion
execute-Follows h e id tenant db =
    elim (Option-cases (find (approved_request id tenant) db.requests)) [
      | inl n ↦ rw n (Follows-refl tenant db.requests)
      | inr (r, f) ↦ rw f (
          subst (λ t. Follows t db.requests (run_deletion h e (some r) db).1.requests)
            (found_of_tenant tenant id db.requests r f) (run-Follows h e r db))
    ]

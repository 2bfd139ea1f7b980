-- ===== src/Governance/Deletion.antt =====
-- `DeletionService` of services/api/src/tkp_api/governance/deletion.py. The tables of the governance
-- are there; `now`, the ids that `uuid4` yields, and whether a DELETE raises are arguments.
use tkp_platform.Base.{
  ℕ, ◌+◌, ◌*◌, Bool, true, false, not, ◌&&◌, ◌||◌, Option, none, some, [], ◌∷◌, ◌++◌, ◌==◌,
  if◌then◌else◌, ltb, any, find, update_where,
}
use tkp_platform.Base.Result.{Result, ok, ◌>>◌, raise_if}
use tkp_platform.Base.Text.{Text, text_eq}
use tkp_platform.Governance.Rows.{
  ResourceType, RequestStatus, DeletionRequest, DeletionProof, Tables, GovernanceDb,
}
use tkp_platform.Governance.Erase.{resource_exists, has_snapshot, delete_statements}

unfoldable pub is_supported : ResourceType → Bool
is_supported (ResourceType.other name) = false
is_supported _ = true

unfoldable pub type_eq : ResourceType → ResourceType → Bool
type_eq ResourceType.document ResourceType.document = true
type_eq ResourceType.user ResourceType.user = true
type_eq ResourceType.conversation ResourceType.conversation = true
type_eq (ResourceType.other a) (ResourceType.other b) = text_eq a b
type_eq _ _ = false

abbrev pub is_pending : RequestStatus → Bool
is_pending RequestStatus.pending = true
is_pending _ = false

abbrev pub is_approved : RequestStatus → Bool
is_approved RequestStatus.approved = true
is_approved _ = false

pub data DeletionError : Type 0 where
  unsupported_type not_in_tenant already_pending : DeletionError

-- The WHERE clause of the search for a pending request of the same resource.
abbrev pub pending_for : ℕ → ResourceType → ℕ → DeletionRequest → Bool
pending_for tenant type resource r =
    r.tenant_id == tenant
    && (type_eq r.resource_type type && (r.resource_id == resource && is_pending r.status))

unfoldable pub new_request : ℕ → ℕ → ℕ → ℕ → ResourceType → ℕ → Text → DeletionRequest
new_request id now tenant user type resource reason = record {
  id = id;
  tenant_id = tenant;
  user_id = user;
  resource_type = type;
  resource_id = resource;
  reason = reason;
  status = RequestStatus.pending;
  requested_at = now;
  approved_by = none;
  approved_at = none;
  rejected_by = none;
  rejected_at = none;
  reject_reason = none;
  executed_by = none;
  executed_at = none;
  proof_id = none;
  created_at = now;
  updated_at = now;
}

unfoldable pub create_deletion_request :
    ℕ → ℕ → ℕ → ℕ → ResourceType → ℕ → Text → GovernanceDb → Result DeletionError GovernanceDb
create_deletion_request id now tenant user type resource reason db = do
  raise_if (not (is_supported type)) unsupported_type
  raise_if (not (resource_exists type resource tenant db.tables)) not_in_tenant
  raise_if (any (pending_for tenant type resource) db.requests) already_pending
  ok (record db {
    requests = db.requests ++ new_request id now tenant user type resource reason ∷ [];
  })

-- UPDATE deletion_requests ...; the answer is whether a row was changed.
abbrev pub change_requests :
    (DeletionRequest → Bool) → (DeletionRequest → DeletionRequest) → GovernanceDb → GovernanceDb
change_requests p f db = record db { requests = update_where p f db.requests }

abbrev pub pending_request : ℕ → ℕ → DeletionRequest → Bool
pending_request id tenant r = r.id == id && (r.tenant_id == tenant && is_pending r.status)

abbrev pub approved_request : ℕ → ℕ → DeletionRequest → Bool
approved_request id tenant r = r.id == id && (r.tenant_id == tenant && is_approved r.status)

unfoldable pub approved_row : ℕ → ℕ → DeletionRequest → DeletionRequest
approved_row now by r = record r {
  status = RequestStatus.approved;
  approved_by = some by;
  approved_at = some now;
  updated_at = now;
}

unfoldable pub approve_deletion_request : ℕ → ℕ → ℕ → ℕ → GovernanceDb → Bool × GovernanceDb
approve_deletion_request now id tenant by db = (
  any (pending_request id tenant) db.requests,
  change_requests (pending_request id tenant) (approved_row now by) db,
)

abbrev pub may_cancel : ℕ → ℕ → ℕ → Bool → DeletionRequest → Bool
may_cancel id tenant requester is_admin r =
    pending_request id tenant r && (is_admin || r.user_id == requester)

unfoldable pub cancelled_row : ℕ → DeletionRequest → DeletionRequest
cancelled_row now r = record r { status = RequestStatus.cancelled; updated_at = now }

unfoldable pub cancel_deletion_request : ℕ → ℕ → ℕ → ℕ → Bool → GovernanceDb → Bool × GovernanceDb
cancel_deletion_request now id tenant requester is_admin db = (
  any (may_cancel id tenant requester is_admin) db.requests,
  change_requests (may_cancel id tenant requester is_admin) (cancelled_row now) db,
)

unfoldable pub rejected_row : ℕ → ℕ → Text → DeletionRequest → DeletionRequest
rejected_row now by reason r = record r {
  status = RequestStatus.rejected;
  rejected_by = some by;
  rejected_at = some now;
  reject_reason = some reason;
  updated_at = now;
}

unfoldable pub reject_deletion_request : ℕ → ℕ → ℕ → ℕ → Text → GovernanceDb → Bool × GovernanceDb
reject_deletion_request now id tenant by reason db = (
  any (pending_request id tenant) db.requests,
  change_requests (pending_request id tenant) (rejected_row now by reason) db,
)

-- requested_at < now - 30 days
abbrev pub is_overdue : ℕ → ℕ → DeletionRequest → Bool
is_overdue now tenant r =
    r.tenant_id == tenant && (is_pending r.status && ltb (r.requested_at + 30 * 86_400_000_000) now)

unfoldable pub expired_row : ℕ → DeletionRequest → DeletionRequest
expired_row now r = record r { status = RequestStatus.expired; updated_at = now }

-- What listing the requests does before it reads them.
unfoldable pub expire_pending_requests : ℕ → ℕ → GovernanceDb → GovernanceDb
expire_pending_requests now tenant = change_requests (is_overdue now tenant) (expired_row now)

unfoldable pub failed_row : ℕ → DeletionRequest → DeletionRequest
failed_row now r = record r { status = RequestStatus.failed; updated_at = now }

unfoldable pub mark_request_failed : ℕ → ℕ → ℕ → GovernanceDb → GovernanceDb
mark_request_failed now id tenant = change_requests (approved_request id tenant) (failed_row now)

-- The hash, `hashlib.sha256(...).hexdigest()`, the printers of ids and of times, and the JSON text of
-- the snapshot of a resource.
pub record Hashing : Type 0 where
  pub digest : Text → Text
  pub show_id : ℕ → Text
  pub iso : ℕ → Text
  pub show_type : ResourceType → Text
  pub snapshot_json : ResourceType → ℕ → ℕ → Tables → Text

unfoldable pub proof_data : Hashing → ℕ → ℕ → ResourceType → ℕ → ℕ → Text → Text
proof_data h proof_id request_id type resource deleted_at data_hash =
    h.show_id proof_id
    ++ (h.show_id request_id
        ++ (h.show_type type ++ (h.show_id resource ++ (h.iso deleted_at ++ data_hash))))

unfoldable pub completed_row : ℕ → ℕ → ℕ → DeletionRequest → DeletionRequest
completed_row now by proof r = record r {
  status = RequestStatus.completed;
  executed_by = some by;
  executed_at = some now;
  proof_id = some proof;
  updated_at = now;
}

-- The new ids and times of an execution, and whether one of its DELETE statements raises.
pub record Run : Type 0 where
  pub now : ℕ
  pub proof_id : ℕ
  pub executed_by : ℕ
  pub fails : Bool

unfoldable pub new_proof : Hashing → Run → DeletionRequest → Tables → DeletionProof
new_proof h e r t =
    let data_hash = h.digest (h.snapshot_json r.resource_type r.resource_id r.tenant_id t) in
    record {
      proof_id = e.proof_id;
      request_id = r.id;
      tenant_id = r.tenant_id;
      resource_type = r.resource_type;
      resource_id = r.resource_id;
      deleted_at = e.now;
      deleted_by = e.executed_by;
      data_hash = data_hash;
      proof_hash =
          h.digest (proof_data h e.proof_id r.id r.resource_type r.resource_id e.now data_hash);
    }

-- `_delete_resource`: `none` is False, after a rollback.
abbrev pub delete_resource : Bool → ResourceType → ℕ → ℕ → Tables → Option Tables
delete_resource true type id tenant t = none
delete_resource false type id tenant t = delete_statements id tenant type t

abbrev pub finish_deletion :
    Hashing
    → Run
    → DeletionRequest
    → GovernanceDb
    → Option Tables
    → Option DeletionProof × GovernanceDb
finish_deletion h e r db none = (none, mark_request_failed e.now r.id r.tenant_id db)
finish_deletion h e r db (some t) = (
  some (new_proof h e r db.tables),
  record {
    requests =
        update_where (approved_request r.id r.tenant_id)
          (completed_row e.now e.executed_by e.proof_id) db.requests;
    proofs = db.proofs ++ new_proof h e r db.tables ∷ [];
    tables = t;
  },
)

-- Without a row of the resource in the tenant there is no snapshot.
abbrev pub run_deletion :
    Hashing → Run → Option DeletionRequest → GovernanceDb → Option DeletionProof × GovernanceDb
run_deletion h e none db = (none, db)
run_deletion h e (some r) db =
    if has_snapshot r.resource_type r.resource_id r.tenant_id db.tables
    then finish_deletion h e r db
        (delete_resource e.fails r.resource_type r.resource_id r.tenant_id db.tables)
    else (none, mark_request_failed e.now r.id r.tenant_id db)

unfoldable pub execute_deletion :
    Hashing → Run → ℕ → ℕ → GovernanceDb → Option DeletionProof × GovernanceDb
execute_deletion h e id tenant db =
    run_deletion h e (find (approved_request id tenant) db.requests) db

-- A proof whose hash is not the hash of its columns does not verify.
abbrev pub check_proof : Hashing → Option DeletionProof → Bool
check_proof h none = false
check_proof h (some p) =
    text_eq
      (h.digest (
        proof_data h p.proof_id p.request_id p.resource_type p.resource_id p.deleted_at
          p.data_hash))
      p.proof_hash

unfoldable pub verify_deletion_proof : Hashing → ℕ → GovernanceDb → Bool
verify_deletion_proof h id db =
    check_proof h (find (λ (p : DeletionProof). p.proof_id == id) db.proofs)

unfoldable pub get_deletion_request_state : ℕ → ℕ → GovernanceDb → Option DeletionRequest
get_deletion_request_state id tenant db =
    find (λ (r : DeletionRequest). r.id == id && r.tenant_id == tenant) db.requests

abbrev pub of_tenant : Option ℕ → DeletionProof → Bool
of_tenant none p = true
of_tenant (some t) p = p.tenant_id == t

unfoldable pub get_deletion_proof : ℕ → Option ℕ → GovernanceDb → Option DeletionProof
get_deletion_proof id tenant db =
    find (λ (p : DeletionProof). p.proof_id == id && of_tenant tenant p) db.proofs

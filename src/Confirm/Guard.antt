-- ===== src/Confirm/Guard.antt =====
-- The decorator `require_confirmation` of services/api/src/tkp_api/middleware/sensitive_operation.py. The
-- function that it wraps is a parameter, which may raise and which changes a state of its own.
use tkp_platform.Base.{ℕ, Bool, Option, none, some, if◌then◌else◌}
use tkp_platform.Base.Result.{Result, ok, err}
use tkp_platform.Base.Text.{Text, text_eq}
use tkp_platform.Confirm.Service.{
  Redis, ConfirmError, Request, Issued, request_confirmation, verify_confirmation,
}

-- What the wrapper takes from its arguments. A payload without the attribute `confirmation_id` is as good as
-- none; nothing stands for an id that is None or empty.
pub record Call : Type 0 where
  pub has_context : Bool
  pub tenant_id : ℕ
  pub user_id : ℕ
  pub payload : Option (Option ℕ × Option Text)
  pub headers : Option ℕ × Option Text
  pub operation_data : Text

pub data Failure : Type 0 where
  value_error : Text → Failure
  other_error : Text → Failure

pub data Reason : Type 0 where
  refused : ConfirmError → Reason
  type_mismatch : Reason
  operation_failed : Text → Reason

-- The answers 500, 428 and 403, and what the function raises besides.
pub data GuardError : Type 0 where
  missing_context : GuardError
  confirmation_required : Text → Issued → GuardError
  verification_failed : Reason → GuardError
  raised : Text → GuardError

abbrev pub fields :
    Option (Option ℕ × Option Text) → Option ℕ × Option Text → Option ℕ × Option Text
fields none headers = headers
fields (some given) headers = given

abbrev pub as_answer {ℓ} : {B : Type ℓ} → Result Failure B → Result GuardError B
as_answer (ok answer) = ok answer
as_answer (err (value_error e)) = err (verification_failed (operation_failed e))
as_answer (err (other_error e)) = err (raised e)

abbrev pub request_of : Text → Bool → Call → Request
request_of operation_type require_code call = record {
  tenant_id = call.tenant_id;
  user_id = call.user_id;
  operation_type = operation_type;
  operation_data = call.operation_data;
  require_code = require_code;
}

-- A ValueError of the function is taken for one of the verification.
abbrev pub run_verified {ℓ κ μ} :
    {S : Type ℓ} {W : Type κ} {B : Type μ}
    → Text
    → (W → Result Failure B × W)
    → W
    → S
    → Result ConfirmError ((Text × Text) × S)
    → Result GuardError B × W × S
run_verified operation_type func w s (err e) = (err (verification_failed (refused e)), w, s)
run_verified {S} {W} {B} operation_type func w s (ok (operation, after)) =
    let (answer, changed) = func w in
    if◌then◌else◌ {A = Result GuardError B × W × S} (text_eq operation.0 operation_type)
      (as_answer answer, changed, after) (err (verification_failed type_mismatch), w, after)

module _ {S W B : Type 0} (redis : Option (Redis S)) (operation_type : Text)
    (require_code : Bool) where
  abbrev pub confirm :
      ℕ
      → ℕ
      → Text
      → Call
      → (W → Result Failure B × W)
      → W
      → S
      → Option ℕ × Option Text
      → Result GuardError B × W × S
  confirm ttl id code call func w s (none, given) =
      let (issued, after) =
        request_confirmation redis ttl id code (request_of operation_type require_code call) s in
      (err (confirmation_required operation_type issued), w, after)
  confirm ttl id code call func w s (some confirmation, given) =
      run_verified operation_type func w s
        (verify_confirmation redis confirmation given call.tenant_id call.user_id s)

  -- `id` and `code` are what `secrets` yields if a confirmation is asked for.
  unfoldable pub guarded_call :
      ℕ → ℕ → Text → Call → (W → Result Failure B × W) → W → S → Result GuardError B × W × S
  guarded_call ttl id code call func w s =
      if◌then◌else◌ {A = Result GuardError B × W × S} call.has_context
        (confirm ttl id code call func w s (fields call.payload call.headers))
        (err missing_context, w, s)

-- ===== src/Confirm/Service.antt =====
-- `SensitiveOperationService` of services/api/src/tkp_api/services/sensitive_operation.py. Redis is a
-- parameter; its keys are the confirmation ids behind a fixed prefix, and its values are kept as the
-- data that the code writes as JSON and reads back.
use tkp_platform.Base.{
  ℕ, ◌≡◌, Bool, true, false, not, Option, none, some, List, [], ◌∷◌, ◌==◌, any, ltb,
}
use tkp_platform.Base.Result.{Result, ok, err, ◌>>=◌, ◌>>◌, raise_if, or_raise}
use tkp_platform.Base.Text.{Text, codes, text_eq}

-- `confirmation_data`, without the time, which nothing reads.
pub record Confirmation : Type 0 where
  pub tenant_id : ℕ
  pub user_id : ℕ
  pub operation_type : Text
  pub operation_data : Text
  pub confirmation_code : Option Text

-- The calls of the Redis client: SETEX with a time to live, GET, and DEL, which tells how many keys
-- it has deleted.
pub record Redis (S : Type 0) : Type 0 where
  pub setex : ℕ → ℕ → Confirmation → S → S
  pub get : ℕ → S → Option Confirmation
  pub delete : ℕ → S → S
  pub deleted : ℕ → S → ℕ

-- A key that has just been set is there, and one that has been deleted is not.
pub record RedisLaws {S : Type 0} (r : Redis S) : Type 0 where
  pub get-setex : (k ttl : ℕ) (c : Confirmation) (s : S) → r.get k (r.setex k ttl c s) ≡ some c
  pub get-delete : (k : ℕ) (s : S) → r.get k (r.delete k s) ≡ none

pub data ConfirmError : Type 0 where
  disabled not_found tenant_mismatch user_mismatch code_required invalid_code : ConfirmError

pub record Request : Type 0 where
  pub tenant_id : ℕ
  pub user_id : ℕ
  pub operation_type : Text
  pub operation_data : Text
  pub require_code : Bool

-- The id and the code that the request returns; `id` and `code` are what `secrets` yields.
pub record Issued : Type 0 where
  pub confirmation_id : Option ℕ
  pub confirmation_code : Option Text
  pub require_code : Bool

abbrev pub code_of : Bool → Text → Option Text
code_of true code = some code
code_of false code = none

unfoldable pub confirmation_data : Request → Text → Confirmation
confirmation_data q code = record {
  tenant_id = q.tenant_id;
  user_id = q.user_id;
  operation_type = q.operation_type;
  operation_data = q.operation_data;
  confirmation_code = code_of q.require_code code;
}

-- `if stored_code: ...`
unfoldable pub check_code : Option Text → Option Text → Result ConfirmError (Unit {0})
check_code none given = ok tt
check_code (some []) given = ok tt
check_code (some (a ∷ stored)) none = err code_required
check_code (some (a ∷ stored)) (some []) = err code_required
check_code (some (a ∷ stored)) (some (b ∷ given)) =
    raise_if (not (text_eq (b ∷ given) (a ∷ stored))) invalid_code

module _ {S : Type 0} (redis : Option (Redis S)) where
  abbrev pub request_with : Option (Redis S) → ℕ → ℕ → Text → Request → S → Issued × S
  request_with none ttl id code q s =
      (record { confirmation_id = none; confirmation_code = none; require_code = false }, s)
  request_with (some r) ttl id code q s = (
    record {
      confirmation_id = some id;
      confirmation_code = code_of q.require_code code;
      require_code = q.require_code;
    },
    r.setex id ttl (confirmation_data q code) s,
  )

  unfoldable pub request_confirmation : ℕ → ℕ → Text → Request → S → Issued × S
  request_confirmation = request_with redis

  -- The operation that is confirmed, and the store, from which the confirmation is deleted.
  unfoldable pub verify_confirmation :
      ℕ → Option Text → ℕ → ℕ → S → Result ConfirmError ((Text × Text) × S)
  verify_confirmation id given tenant user s = do
    r ← or_raise redis disabled
    c ← or_raise (r.get id s) not_found
    raise_if (not (c.tenant_id == tenant)) tenant_mismatch
    raise_if (not (c.user_id == user)) user_mismatch
    check_code c.confirmation_code given
    ok ((c.operation_type, c.operation_data), r.delete id s)

  abbrev pub cancel_with : Option (Redis S) → ℕ → S → Bool × S
  cancel_with none id s = (false, s)
  cancel_with (some r) id s = (ltb 0 (r.deleted id s), r.delete id s)

  unfoldable pub cancel_confirmation : ℕ → S → Bool × S
  cancel_confirmation = cancel_with redis

abbrev pub sensitive_operations : List Text
sensitive_operations =
    codes "delete_kb"
    ∷ codes "delete_document"
    ∷ codes "delete_tenant"
    ∷ codes "revoke_admin_permission"
    ∷ codes "change_owner"
    ∷ codes "delete_user"
    ∷ codes "reset_password"
    ∷ codes "disable_tenant"
    ∷ codes "purge_data"
    ∷ codes "export_data"
    ∷ []

unfoldable pub is_sensitive_operation : Text → Bool
is_sensitive_operation operation_type = any (text_eq operation_type) sensitive_operations

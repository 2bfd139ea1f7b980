-- ===== src/Confirm/Guarded.antt =====
-- Which calls reach the function behind `require_confirmation`
-- (services/api/src/tkp_api/middleware/sensitive_operation.py).
use tkp_platform.Base.{
  ℕ, ◌≡◌, ◌⊎◌, refl, ap, ◌∙◌, inl, inr, Bool, true, Option, none, some, Bool-cases,
}
use tkp_platform.Base.Result.{Result, ok, err, Result-cases}
use tkp_platform.Base.Text.{Text, text_eq}
use tkp_platform.Base.TextLaws.{text_eq→eq, text_eq_refl}
use tkp_platform.Confirm.Service.{
  Confirmation, Redis, RedisLaws, not_found, code_of, check_code, request_confirmation,
  verify_confirmation,
}
use tkp_platform.Confirm.OneTime.{verify_once, request_then_verify}
use tkp_platform.Confirm.Guard.{
  Call, Failure, fields, request_of, run_verified, confirm, guarded_call,
}

module _ {S : Type 0} (r : Redis S) (laws : RedisLaws r) (operation_type : Text) where
  -- There is a confirmation of that tenant and user for the operation, its code is given, and it is not found
  -- afterwards.
  abbrev pub Confirmed : ℕ → Option Text → Call → S → S → Type 0
  Confirmed k given call s s' =
      ((c : Confirmation) × (r.get k s ≡ some c)
        × (c.tenant_id ≡ call.tenant_id)
        × (c.user_id ≡ call.user_id)
        × (c.operation_type ≡ operation_type)
        × (check_code c.confirmation_code given ≡ ok tt))
      × ((tenant user : ℕ) (again : Option Text)
          → verify_confirmation (some r) k again tenant user s' ≡ err not_found)

  module _ {W B : Type 0} (call : Call) (func : W → Result Failure B × W) (w : W) (s : S) where
    run_verified-Confirmed :
        (k : ℕ) (given : Option Text)
        → let result =
            run_verified operation_type func w s
              (verify_confirmation (some r) k given call.tenant_id call.user_id s) in
          (result.1 ≡ w) ⊎ ((result.1 ≡ (func w).1) × Confirmed k given call s result.2)
    run_verified-Confirmed k given =
        elim (Result-cases (verify_confirmation (some r) k given call.tenant_id call.user_id s)) [
          | inr (e, h) ↦ rw h (inl refl)
          | inl ((operation, after), h) ↦ elim (Bool-cases (text_eq operation.0 operation_type)) [
            | inr f ↦ rw (h, f) (inl refl)
            | inl t ↦
                let ((c, there, tenant, user, code, same), gone) =
                  verify_once r laws k call.tenant_id call.user_id given s after operation h in
                let type = ap (λ o. o.0) same ∙ text_eq→eq operation.0 operation_type t in
                rw (h, t) (inr (refl, ((c, there, tenant, user, type, code), gone)))
          ]
        ]

    confirm-Confirmed :
        (require_code : Bool) (ttl id : ℕ) (code : Text) (given : Option ℕ × Option Text)
        → let result =
            confirm (some r) operation_type require_code ttl id code call func w s given in
          (result.1 ≡ w)
          ⊎ ((result.1 ≡ (func w).1)
              × (k : ℕ) × (given.0 ≡ some k)
              × Confirmed k given.1 call s result.2)
    confirm-Confirmed require_code ttl id code (none, given) = inl refl
    confirm-Confirmed require_code ttl id code (some k, given) =
        elim (run_verified-Confirmed k given) [ inl e ↦ inl e | inr (e, c) ↦ inr (e, k, refl, c) ]

-- Behind the decorator the function runs, or its state is as it was. It runs only for a call that names a
-- confirmation which that user of that tenant was given for this operation, with its code if it has one, and
-- afterwards that confirmation is not found, whoever asks with whatever code.
pub operation_runs_once :
    {S W B : Type 0} (r : Redis S) (laws : RedisLaws r) (operation_type : Text)
    (require_code : Bool) (ttl id : ℕ) (code : Text) (call : Call) (func : W → Result Failure B × W)
    (w : W) (s : S)
    → let result = guarded_call (some r) operation_type require_code ttl id code call func w s in
      (result.1 ≡ w)
      ⊎ ((result.1 ≡ (func w).1)
          × (k : ℕ) × ((fields call.payload call.headers).0 ≡ some k)
          × Confirmed r laws operation_type k (fields call.payload call.headers).1 call s result.2)
unfolding guarded_call request_confirmation
operation_runs_once r laws operation_type require_code ttl id code call func w s =
    elim (Bool-cases call.has_context) [
      | inr f ↦ rw f (inl refl)
      | inl t ↦ simp t (
          confirm-Confirmed r laws operation_type call func w s require_code ttl id code
            (fields call.payload call.headers))
    ]

abbrev pub call_of : ℕ → ℕ → Option ℕ × Option Text → Text → Call
call_of tenant user given body = record {
  has_context = true;
  tenant_id = tenant;
  user_id = user;
  payload = none;
  headers = given;
  operation_data = body;
}

-- A user who has asked for a confirmation of an operation with some data can run the operation with any
-- other data, given the id and the code that were returned.
pub confirmation_fits_other_data :
    {S W B : Type 0} (r : Redis S) (laws : RedisLaws r) (operation_type : Text)
    (require_code : Bool) (ttl id tenant user : ℕ) (code asked other : Text)
    (func : W → Result Failure B × W) (w : W) (s : S)
    → let first =
        guarded_call
          (some r)
          operation_type
          require_code
          ttl
          id
          code
          (call_of tenant user (none, none) asked)
          func
          w
          s in
      let second =
        guarded_call
          (some r)
          operation_type
          require_code
          ttl
          id
          code
          (call_of tenant user (some id, code_of require_code code) other)
          func
          first.1
          first.2 in
      (first.1 ≡ w) × (second.1 ≡ (func w).1)
unfolding guarded_call request_confirmation
confirmation_fits_other_data r laws operation_type require_code ttl id tenant user code asked other
      func w s =
    let q = request_of operation_type require_code (call_of tenant user (none, none) asked) in
    let verified = request_then_verify r laws ttl id code q s in
    (refl, rw (verified, text_eq_refl operation_type) refl)

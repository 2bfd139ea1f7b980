-- ===== src/Confirm/Tests.antt =====
-- A store of confirmations as an association list.
use tkp_platform.Base.{
  ℕ, ◌≡◌, ◌⊎◌, refl, inl, inr, Bool, true, Option, none, some, List, [], ◌∷◌, ◌==◌, if◌then◌else◌,
  filter, length, ==_refl, Bool-cases,
}
use tkp_platform.Base.Result.{Result, ok}
use tkp_platform.Base.Text.{codes}
use tkp_platform.Confirm.Service.{
  Confirmation, Redis, RedisLaws, Request, confirmation_data, check_code, verify_confirmation,
  is_sensitive_operation,
}
use tkp_platform.Confirm.Guard.{Call, Failure, GuardError, guarded_call}
use tkp_platform.Confirm.Guarded.{
  Confirmed, call_of, operation_runs_once, confirmation_fits_other_data,
}

abbrev Entries : Type 0
Entries = List (ℕ × Confirmation)

abbrev lookup : ℕ → Entries → Option Confirmation
lookup k [] = none
lookup k (e ∷ es) = if e.0 == k then some e.1 else lookup k es

abbrev without : ℕ → Entries → Entries
without k [] = []
without k (e ∷ es) = if e.0 == k then without k es else e ∷ without k es

abbrev entries : Redis Entries
entries = record {
  setex = λ k ttl c s. (k, c) ∷ s;
  get = lookup;
  delete = without;
  deleted = λ k s. length (filter (λ (e : ℕ × Confirmation). e.0 == k) s);
}

lookup-without : (k : ℕ) (s : Entries) → lookup k (without k s) ≡ none
lookup-without k [] = refl
lookup-without k (e ∷ es) = elim (Bool-cases (e.0 == k)) [
  | inl t ↦ rw t (lookup-without k es)
  | inr f ↦ rw f (rw f (lookup-without k es))
]

lookup-new : (k : ℕ) (c : Confirmation) (s : Entries) → lookup k ((k, c) ∷ s) ≡ some c
lookup-new k c s = rw (==_refl k) refl

entries_laws : RedisLaws entries
entries_laws = record { get-setex = λ k ttl c s. lookup-new k c s; get-delete = lookup-without }

abbrev deletion : Request
deletion = record {
  tenant_id = 1;
  user_id = 5;
  operation_type = codes "delete_kb";
  operation_data = codes "21";
  require_code = true;
}

abbrev stored : Entries
stored = (7, confirmation_data deletion (codes "042137")) ∷ []

verified :
    verify_confirmation (some entries) 7 (some (codes "042137")) 1 5 stored
    ≡ ok ((codes "delete_kb", codes "21"), [])
unfolding verify_confirmation confirmation_data check_code
verified = refl

-- Deletes the knowledge base that the call names.
abbrev delete_kb : ℕ → ℕ → Result Failure Bool × ℕ
delete_kb kb before = (ok true, kb)

abbrev delete_call : Call
delete_call = call_of 1 5 (some 7, some (codes "042137")) (codes "21")

abbrev outcome : Result GuardError Bool × ℕ × Entries
outcome =
    guarded_call (some entries) (codes "delete_kb") true 300 8 (codes "1") delete_call
      (delete_kb 21) 0 stored

ran : outcome.1 ≡ 21
unfolding guarded_call verify_confirmation confirmation_data check_code
ran = refl

-- The confirmation is used up by a call of another operation.
other_operation :
    (guarded_call
      (some entries)
      (codes "delete_user")
      true
      300
      8
      (codes "1")
      delete_call
      (delete_kb 21)
      0
      stored).2
    ≡ []
unfolding guarded_call verify_confirmation confirmation_data check_code
other_operation = refl

operation_runs_once_example :
    (outcome.1 ≡ 0)
    ⊎ ((outcome.1 ≡ 21)
        × (k : ℕ) × (some 7 ≡ some k)
        × Confirmed entries entries_laws
            (codes "delete_kb")
            k
            (some (codes "042137"))
            delete_call
            stored
            outcome.2)
operation_runs_once_example =
    operation_runs_once entries entries_laws (codes "delete_kb") true 300 8 (codes "1") delete_call
      (delete_kb 21) 0 stored

abbrev asked_for_21 : Result GuardError Bool × ℕ × Entries
asked_for_21 =
    guarded_call (some entries) (codes "delete_kb") true 300 7 (codes "042137")
      (call_of 1 5 (none, none) (codes "21")) (delete_kb 22) 0 []

confirmation_fits_other_data_example :
    (asked_for_21.1 ≡ 0)
    × ((guarded_call
          (some entries)
          (codes "delete_kb")
          true
          300
          7
          (codes "042137")
          (call_of 1 5 (some 7, some (codes "042137")) (codes "22"))
          (delete_kb 22)
          asked_for_21.1
          asked_for_21.2).1
        ≡ 22)
confirmation_fits_other_data_example =
    confirmation_fits_other_data entries entries_laws (codes "delete_kb") true 300 7 1 5
      (codes "042137") (codes "21") (codes "22") (delete_kb 22) 0 []

knows_deletion : is_sensitive_operation (codes "delete_kb") ≡ true
unfolding is_sensitive_operation
knows_deletion = refl

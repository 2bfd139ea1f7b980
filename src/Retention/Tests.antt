-- ===== src/Retention/Tests.antt =====
-- Runs of a clean-up (services/api/src/tkp_api/governance/retention.py).
use tkp_platform.Base.{
  ℕ, ◌≡◌, refl, inl, Bool, true, false, ◌||◌, Option, none, some, List, [], ◌∷◌, ◌==◌, any, filter,
  arith, if◌then◌else◌, ◌*◌, ◌&&◌, ◌+◌, length,
}
use tkp_platform.Base.Text.{Text, codes, text_eq}
use tkp_platform.Retention.Policies.{
  pos, RetentionPolicy, Policies, default_retention_policies, get_policy, resolve_table_name,
}
use tkp_platform.Retention.Service.{
  Row, Store, failed, deleted, would_delete, archive_name, by_age, insert_row, select_expired,
  find_expired_records, archive_records, delete_expired_records, clean_type, clean_types,
  cleanup_all_expired, auto_delete_off, archive_failed,
}
use tkp_platform.Retention.Removal.{rows_in, may_go, cleanup_keeps}
use tkp_platform.Retention.Emptied.{too_old, cleanup_removes_expired}
use tkp_platform.Retention.Archived.{copies_in, cleanup_loses_nothing}

abbrev jobs : Text
jobs = codes "ingestion_jobs"

abbrev audit : Text
audit = codes "audit_logs"

abbrev row : ℕ → ℕ → ℕ → Row
row i t c = record { id = i; tenant_id = t; created_at = c }

-- Of two jobs of one tenant, one is older than thirty days on day 100; so is that of another tenant.
abbrev rows : List Row
rows = row 1 7 (95 * 86400) ∷ row 2 7 (60 * 86400) ∷ row 3 8 (50 * 86400) ∷ []

abbrev today : ℕ
today = 100 * 86400

abbrev store : Store
store = record {
  tables = λ n. if text_eq n jobs || text_eq n audit then rows else [];
  archives = λ n. if text_eq n (archive_name audit) then some [] else none;
}

abbrev accepts : Text → List ℕ → Bool
accepts n ids = false

abbrev archiving : Text → RetentionPolicy
archiving kind = record {
  resource_type = kind;
  retention_days = pos 30;
  auto_delete = true;
  archive_before_delete = true;
}

abbrev job_policy : RetentionPolicy
job_policy = record {
  resource_type = jobs;
  retention_days = pos 30;
  auto_delete = true;
  archive_before_delete = false;
}

abbrev with_audit : Policies
with_audit = (audit, archiving audit) ∷ []

audit_is_kept :
    (delete_expired_records accepts default_retention_policies none today false audit store).0
    ≡ failed auto_delete_off
unfolding delete_expired_records get_policy resolve_table_name
audit_is_kept = refl

no_archive :
    (delete_expired_records accepts ((jobs, archiving jobs) ∷ []) none today false jobs store).0
    ≡ failed archive_failed
unfolding delete_expired_records find_expired_records get_policy resolve_table_name select_expired
    by_age insert_row archive_records
no_archive = refl

dry :
    (delete_expired_records accepts with_audit (some 8) today true audit store).0 ≡ would_delete 1 1
unfolding delete_expired_records find_expired_records get_policy resolve_table_name select_expired
    by_age insert_row
dry = refl

all_types :
    rows_in jobs
      ((cleanup_all_expired accepts default_retention_policies none (λ n. today) false store).1)
    ≡ row 1 7 (95 * 86400) ∷ []
unfolding cleanup_all_expired clean_types clean_type delete_expired_records find_expired_records
    get_policy resolve_table_name select_expired by_age insert_row
all_types = refl

policy_of_jobs : get_policy jobs default_retention_policies ≡ some job_policy
unfolding get_policy
policy_of_jobs = refl

jobs_known : resolve_table_name jobs ≡ some jobs
unfolding resolve_table_name
jobs_known = refl

policy_of_audit : get_policy audit with_audit ≡ some (archiving audit)
unfolding get_policy
policy_of_audit = refl

abbrev cleaned : Option ℕ → Store
cleaned tenant =
    (cleanup_all_expired accepts default_retention_policies tenant (λ n. today) false store).1

other_tenant :
    any (λ r. r.id == 3 && may_go default_retention_policies (some 7) (λ n. today) jobs r) rows
    ≡ false
unfolding get_policy
other_tenant = refl

cleanup_keeps_example :
    filter (λ r. r.id == 3) (rows_in jobs (cleaned (some 7))) ≡ row 3 8 (50 * 86400) ∷ []
cleanup_keeps_example =
    cleanup_keeps accepts default_retention_policies (some 7) (λ n. today) false jobs 3 store
      other_tenant

cleanup_removes_expired_example :
    (d : ℕ) × (a : ℕ) × ((delete_expired_records accepts default_retention_policies none today false
        jobs store).0
      ≡ deleted d a)
    × (d
          + length (
              rows_in jobs (
                (delete_expired_records accepts default_retention_policies none today false jobs
                  store).1))
        ≡ 3)
    × (any (too_old none today job_policy) (
          rows_in jobs (
            (delete_expired_records accepts default_retention_policies none today false jobs
              store).1))
        ≡ false)
cleanup_removes_expired_example =
    cleanup_removes_expired accepts default_retention_policies none today jobs job_policy store
      policy_of_jobs refl jobs_known (λ ids. refl) (inl refl) (omega arith)

cleanup_loses_nothing_example :
    (any
        (λ r. r.id == 2)
        (rows_in audit ((delete_expired_records accepts with_audit none today false audit store).1))
      || any
          (λ (a : Row × ℕ). (a.0).id == 2)
          (copies_in
            (archive_name audit)
            ((delete_expired_records accepts with_audit none today false audit store).1)))
    ≡ true
cleanup_loses_nothing_example =
    cleanup_loses_nothing accepts with_audit none today false audit (archiving audit)
      (λ r. r.id == 2) store policy_of_audit refl refl

-- ===== src/Retention/Service.antt =====
-- `RetentionService` of services/api/src/tkp_api/governance/retention.py. Times are in seconds;
-- `rejects` tells whether a DELETE raises for a reason of the database's own. The tables of the types
-- exist, and a SELECT from them does not raise; an archive may be missing. A number of days that
-- reaches back before the first year, where Python raises, is not looked at.
use tkp_platform.Base.{
  ℕ, ◌+◌, ◌*◌, Bool, true, false, not, ◌&&◌, Option, none, some, List, [], ◌∷◌, ◌++◌, ◌==◌, ltb,
  leb, if◌then◌else◌, contains, filter, map, take, length,
}
use tkp_platform.Base.Text.{Text, codes, text_eq}
use tkp_platform.Retention.Policies.{
  ℤ, pos, negsuc, RetentionPolicy, Policies, get_policy, resolve_table_name,
}

pub record Row : Type 0 where
  pub id : ℕ
  pub tenant_id : ℕ
  pub created_at : ℕ

-- A row of an archive has the time of the copy with it; nothing stands for an archive that does not exist.
pub record Store : Type 0 where
  pub tables : Text → List Row
  pub archives : Text → Option (List (Row × ℕ))

pub data CleanupError : Type 0 where
  no_policy invalid_type auto_delete_off archive_failed delete_failed : CleanupError

pub data Outcome : Type 0 where
  failed : CleanupError → Outcome
  deleted : (deleted_count : ℕ) → (archived_count : ℕ) → Outcome
  would_delete : (deletions : ℕ) → (copies : ℕ) → Outcome

abbrev pub in_tenant : Option ℕ → Row → Bool
in_tenant none row = true
in_tenant (some tenant) row = row.tenant_id == tenant

-- `created_at < now - timedelta(days)`, and the tenant if one is given
abbrev pub is_expired : Option ℕ → ℕ → ℕ → Row → Bool
is_expired tenant now days row = ltb (row.created_at + days * 86400) now && in_tenant tenant row

unfoldable pub insert_row : Row → List Row → List Row
insert_row r [] = r ∷ []
insert_row r (x ∷ xs) =
    let rest = insert_row r xs in if leb r.created_at x.created_at then r ∷ x ∷ xs else x ∷ rest

-- `ORDER BY created_at`
unfoldable pub by_age : List Row → List Row
by_age [] = []
by_age (x ∷ xs) = insert_row x (by_age xs)

module _ (tenant : Option ℕ) (now : ℕ) where
  unfoldable pub select_expired : ℕ → List Row → List Row
  select_expired days rows = take 1000 (by_age (filter (is_expired tenant now days) rows))

  abbrev pub expired_in : ℤ → Option Text → Store → List Row
  expired_in (negsuc n) table store = []
  expired_in (pos days) none store = []
  expired_in (pos days) (some name) store = select_expired days (store.tables name)

  abbrev pub under_policy : Option RetentionPolicy → Option Text → Store → List Row
  under_policy none table store = []
  under_policy (some policy) table store = expired_in policy.retention_days table store

  unfoldable pub find_expired_records : Policies → Text → Store → List Row
  find_expired_records policies kind store =
      under_policy (get_policy kind policies) (resolve_table_name kind) store

abbrev pub archive_name : Text → Text
archive_name table = table ++ codes "_archive"

abbrev pub put_archive : Text → List (Row × ℕ) → Store → Store
put_archive name rows store = record {
  tables = store.tables;
  archives = λ n. if text_eq n name then some rows else store.archives n;
}

abbrev pub put_table : Text → List Row → Store → Store
put_table name rows store = record {
  tables = λ n. if text_eq n name then rows else store.tables n;
  archives = store.archives;
}

-- `WHERE id = ANY(:record_ids)`
abbrev pub with_ids : List ℕ → Row → Bool
with_ids ids row = contains row.id ids

-- `INSERT INTO ... SELECT`; the archive has to exist.
abbrev pub copy_rows : ℕ → Text → List ℕ → Option (List (Row × ℕ)) → List Row → Store → Bool × Store
copy_rows now name ids (some copies) rows store =
    (true, put_archive name (copies ++ map (λ row. (row, now)) (filter (with_ids ids) rows)) store)
copy_rows now name ids none rows store = (false, store)

abbrev pub archive_ids : ℕ → List ℕ → Option Text → Store → Bool × Store
archive_ids now [] table store = (true, store)
archive_ids now (i ∷ ids) none store = (false, store)
archive_ids now (i ∷ ids) (some name) store =
    copy_rows now (archive_name name) (i ∷ ids) (store.archives (archive_name name))
      (store.tables name) store

unfoldable pub archive_records : ℕ → Text → List ℕ → Store → Bool × Store
archive_records now kind ids store = archive_ids now ids (resolve_table_name kind) store

module _ (rejects : Text → List ℕ → Bool) where
  abbrev pub delete_from : Text → List ℕ → ℕ → List Row → Store → Outcome × Store
  delete_from name ids archived rows store =
      if rejects name ids then (failed CleanupError.delete_failed, store) else (
        deleted (length (filter (with_ids ids) rows)) archived,
        put_table name (filter (λ row. not (with_ids ids row)) rows) store,
      )

  abbrev pub after_archive : Text → List ℕ → Bool × Store → Outcome × Store
  after_archive name ids (false, store) = (failed CleanupError.archive_failed, store)
  after_archive name ids (true, store) = delete_from name ids (length ids) (store.tables name) store

  abbrev pub archive_and_delete : ℕ → Text → Bool → Text → List ℕ → Store → Outcome × Store
  archive_and_delete now kind true name ids store =
      after_archive name ids (archive_records now kind ids store)
  archive_and_delete now kind false name ids store =
      delete_from name ids 0 (store.tables name) store

  abbrev pub remove_ids : ℕ → Bool → Text → Bool → Text → List ℕ → Store → Outcome × Store
  remove_ids now dry_run kind archive name [] store = (deleted 0 0, store)
  remove_ids now dry_run kind archive name (i ∷ ids) store =
      if dry_run
      then (would_delete (length (i ∷ ids)) (if archive then length (i ∷ ids) else 0), store)
      else archive_and_delete now kind archive name (i ∷ ids) store

  abbrev pub remove_expired :
      ℕ → Bool → Text → Option RetentionPolicy → Option Text → List Row → Store → Outcome × Store
  remove_expired now dry_run kind none table expired store = (failed CleanupError.no_policy, store)
  remove_expired now dry_run kind (some policy) none expired store =
      (failed CleanupError.invalid_type, store)
  remove_expired now dry_run kind (some policy) (some name) expired store =
      if policy.auto_delete
      then remove_ids now dry_run kind policy.archive_before_delete name
          (map (λ (row : Row). row.id) expired) store
      else (failed CleanupError.auto_delete_off, store)

  unfoldable pub delete_expired_records :
      Policies → Option ℕ → ℕ → Bool → Text → Store → Outcome × Store
  delete_expired_records policies tenant now dry_run kind store =
      remove_expired now dry_run kind (get_policy kind policies) (resolve_table_name kind)
        (find_expired_records tenant now policies kind store) store

  -- `clock` has the time at which a type is cleaned up.
  module _ (policies : Policies) (tenant : Option ℕ) (clock : Text → ℕ) (dry_run : Bool) where
    unfoldable pub clean_type : Text × RetentionPolicy → Store → List (Text × Outcome) × Store
    clean_type (kind, policy) store =
        let (outcome, after) =
          delete_expired_records policies tenant (clock kind) dry_run kind store in
        if policy.auto_delete then ((kind, outcome) ∷ [], after) else ([], store)

    unfoldable pub clean_types : Policies → Store → List (Text × Outcome) × Store
    clean_types [] store = ([], store)
    clean_types (p ∷ ps) store =
        let (first, after) = clean_type p store in
        let (rest, last) = clean_types ps after in (first ++ rest, last)

    unfoldable pub cleanup_all_expired : Store → List (Text × Outcome) × Store
    cleanup_all_expired store = clean_types policies store

-- ===== src/Retention/Emptied.antt =====
-- What a clean-up takes away (services/api/src/tkp_api/governance/retention.py).
use tkp_platform.Base.{
  ℕ, ◌+◌, ◌≤◌, ◌≡◌, ◌⊎◌, refl, sym, ap, ◌∙◌, inl, inr, Bool, true, false, not, Option, some, List,
  [], ◌∷◌, any, filter, length, map, ◌++◌, arith, Bool-cases,
}
use tkp_platform.Base.Text.{Text}
use tkp_platform.Base.TextLaws.{text_eq_refl}
use tkp_platform.Retention.Policies.{RetentionPolicy, Policies, get_policy, resolve_table_name}
use tkp_platform.Retention.Service.{
  Row, Store, Outcome, deleted, put_archive, expired_in, find_expired_records, with_ids,
  archive_name, archive_records, delete_from, remove_ids, delete_expired_records,
}
use tkp_platform.Retention.Selected.{ids_of, none_left}
use tkp_platform.Retention.Removal.{rows_in, goes_at, goes-expired_in}

filter-all : (rows : List Row) → filter (λ row. true) rows ≡ rows
filter-all [] = refl
filter-all (x ∷ xs) = ap (λ l. x ∷ l) (filter-all xs)

-- The rows that a test takes and those that it leaves are all of them.
length-filter :
    (p : Row → Bool) (rows : List Row)
    → length (filter p rows) + length (filter (λ row. not (p row)) rows) ≡ length rows
length-filter p [] = refl
length-filter p (x ∷ xs) =
    let rest = length-filter p xs in
    elim (Bool-cases (p x)) [
      | inl t ↦ rw t (omega (arith, rest))
      | inr f ↦ rw f (omega (arith, rest))
    ]

-- The call reports as many deletions as rows have left the table, which are exactly those with the ids.
abbrev Removed : Text → List ℕ → List Row → Outcome × Store → Type 0
Removed kind ids rows result =
    (d : ℕ) × (a : ℕ) × (result.0 ≡ deleted d a)
    × (d + length (rows_in kind result.1) ≡ length rows)
    × (rows_in kind result.1 ≡ filter (λ row. not (with_ids ids row)) rows)

module _ (rejects : Text → List ℕ → Bool) (kind : Text)
    (accepted : (ids : List ℕ) → rejects kind ids ≡ false) where
  delete_from-Removed :
      (ids : List ℕ) (archived : ℕ) (store : Store)
      → Removed kind ids
          (store.tables kind)
          (delete_from rejects kind ids archived (store.tables kind) store)
  delete_from-Removed ids archived store = rw (accepted ids) (
    length (filter (with_ids ids) (store.tables kind)),
    archived,
    refl,
    rw (text_eq_refl kind) (length-filter (with_ids ids) (store.tables kind)),
    rw (text_eq_refl kind) refl,
  )

  remove_ids-Removed :
      (ids : List ℕ) (now : ℕ) (archive : Bool) (store : Store)
      → resolve_table_name kind ≡ some kind
      → (archive ≡ false)
        ⊎ ((copies : List (Row × ℕ)) × (store.archives (archive_name kind) ≡ some copies))
      → Removed kind ids
          (store.tables kind)
          (remove_ids rejects now false kind archive kind ids store)
  unfolding archive_records
  remove_ids-Removed [] now archive store known ready =
      (0, 0, refl, omega arith, sym (filter-all (store.tables kind)))
  remove_ids-Removed (i ∷ ids) now false store known ready = delete_from-Removed (i ∷ ids) 0 store
  remove_ids-Removed (i ∷ ids) now true store known (inl e) = cc
  remove_ids-Removed (i ∷ ids) now true store known (inr (copies, a)) =
      let copy =
        copies ++ map (λ row. (row, now)) (filter (with_ids (i ∷ ids)) (store.tables kind)) in
      rw (known, a)
        (delete_from-Removed (i ∷ ids) (length (i ∷ ids))
          (put_archive (archive_name kind) copy store))

-- Whether a row is older than the policy keeps it, and of the tenant if one is given.
abbrev pub too_old : Option ℕ → ℕ → RetentionPolicy → Row → Bool
too_old tenant now p = goes_at tenant now true p.retention_days

delete-remove_ids :
    (rejects : Text → List ℕ → Bool) (policies : Policies) (tenant : Option ℕ) (now : ℕ)
    (kind : Text) (p : RetentionPolicy) (store : Store)
    → get_policy kind policies ≡ some p
    → p.auto_delete ≡ true
    → resolve_table_name kind ≡ some kind
    → delete_expired_records rejects policies tenant now false kind store
      ≡ remove_ids rejects now false kind p.archive_before_delete kind
          (ids_of (expired_in tenant now p.retention_days (some kind) store))
          store
unfolding delete_expired_records find_expired_records
delete-remove_ids rejects policies tenant now kind p store policy auto known =
    rw (policy, known, auto) refl

-- If the type is deleted automatically after some days, the database accepts the DELETE, the archive that
-- the policy asks for exists and at most 1,000 rows are too old, a clean-up leaves no row that is too old, and
-- the number that it reports as deleted is by how many rows the table has shrunk.
pub cleanup_removes_expired :
    (rejects : Text → List ℕ → Bool) (policies : Policies) (tenant : Option ℕ) (now : ℕ)
    (kind : Text) (p : RetentionPolicy) (store : Store)
    → get_policy kind policies ≡ some p
    → p.auto_delete ≡ true
    → resolve_table_name kind ≡ some kind
    → ((ids : List ℕ) → rejects kind ids ≡ false)
    → (p.archive_before_delete ≡ false)
      ⊎ ((copies : List (Row × ℕ)) × (store.archives (archive_name kind) ≡ some copies))
    → length (filter (too_old tenant now p) (rows_in kind store)) ≤ 1000
    → let result = delete_expired_records rejects policies tenant now false kind store in
      (d : ℕ) × (a : ℕ) × (result.0 ≡ deleted d a)
      × (d + length (rows_in kind result.1) ≡ length (rows_in kind store))
      × (any (too_old tenant now p) (rows_in kind result.1) ≡ false)
cleanup_removes_expired rejects policies tenant now kind p store policy auto known accepted ready
      few =
    let ids = ids_of (expired_in tenant now p.retention_days (some kind) store) in
    let (d, a, reported, counted, left) =
      remove_ids-Removed rejects kind accepted ids now p.archive_before_delete store known ready in
    let run = delete-remove_ids rejects policies tenant now kind p store policy auto known in
    (
      d,
      a,
      ap (λ r. r.0) run ∙ reported,
      ap (λ r. d + length (rows_in kind r.1)) run ∙ counted,
      ap (λ r. any (too_old tenant now p) (rows_in kind r.1)) run
          ∙ ap (any (too_old tenant now p)) left
          ∙ none_left (too_old tenant now p) ids (rows_in kind store)
              (λ k h. goes-expired_in tenant now k p.retention_days kind store few h),
    )

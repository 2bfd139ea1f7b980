-- ===== src/Retention/Archived.antt =====
-- Rows that a clean-up takes away and their copies (services/api/src/tkp_api/governance/retention.py).
use tkp_platform.Base.{
  ℕ, ◌≡◌, refl, sym, ap, ◌∙◌, inl, inr, Bool, true, false, not, ◌||◌, Option, none, some, List, [],
  ◌∷◌, ◌++◌, any, filter, map, arith, Bool-cases, Option-cases,
}
use tkp_platform.Base.AnyLaws.{any-append}
use tkp_platform.Base.Text.{Text}
use tkp_platform.Base.TextLaws.{text_eq_refl}
use tkp_platform.Retention.Policies.{RetentionPolicy, Policies, get_policy, resolve_table_name}
use tkp_platform.Retention.Service.{
  Row, Store, find_expired_records, put_archive, with_ids, archive_name, archive_records,
  after_archive, archive_and_delete, remove_ids, delete_expired_records,
}
use tkp_platform.Retention.Selected.{ids_of}
use tkp_platform.Retention.Removal.{rows_in, resolved}

abbrev copies_of : Option (List (Row × ℕ)) → List (Row × ℕ)
copies_of none = []
copies_of (some copies) = copies

abbrev pub copies_in : Text → Store → List (Row × ℕ)
copies_in name store = copies_of (store.archives name)

any-copies :
    (q : Row → Bool) (now : ℕ) (rows : List Row)
    → any (λ (a : Row × ℕ). q a.0) (map (λ row. (row, now)) rows) ≡ any q rows
any-copies q now [] = refl
any-copies q now (x ∷ xs) = ap (λ b. q x || b) (any-copies q now xs)

any-parted :
    (q p : Row → Bool) (rows : List Row)
    → any q rows ≡ (any q (filter (λ r. not (p r)) rows) || any q (filter p rows))
any-parted q p [] = refl
any-parted q p (x ∷ xs) = elim (Bool-cases (p x)) [
  | inl t ↦ rw t (rw (any-parted q p xs) (ground arith))
  | inr n ↦ rw n (rw (any-parted q p xs) (ground arith))
]

copied_or_kept :
    (q : Row → Bool) (now : ℕ) (ids : List ℕ) (copies : List (Row × ℕ)) (rows : List Row)
    → any q rows ≡ true
    → (any q (filter (λ r. not (with_ids ids r)) rows)
        || any
            (λ (a : Row × ℕ). q a.0)
            (copies ++ map (λ row. (row, now)) (filter (with_ids ids) rows)))
      ≡ true
copied_or_kept q now ids copies rows h =
    let parts = sym (any-parted q (with_ids ids) rows) ∙ h in
    let same = any-copies q now (filter (with_ids ids) rows) in
    rw
      (
        any-append (λ (a : Row × ℕ). q a.0) copies
            (map (λ row. (row, now)) (filter (with_ids ids) rows)),
        same,
      )
      (ground (arith, parts))

-- A row that passes the test is in the table or among the copies.
abbrev Findable : (Row → Bool) → Text → Store → Type 0
Findable q kind store =
    (any q (rows_in kind store)
      || any (λ (a : Row × ℕ). q a.0) (copies_in (archive_name kind) store))
    ≡ true

still_there :
    (q : Row → Bool) (kind : Text) (store : Store)
    → any q (rows_in kind store) ≡ true
    → Findable q kind store
still_there q kind store h = ground (arith, h)

module _ (rejects : Text → List ℕ → Bool) (q : Row → Bool) (kind : Text) where
  after_copy-Findable :
      (now : ℕ) (ids : List ℕ) (copies : List (Row × ℕ)) (rows : List Row) (store : Store)
      → store.tables kind ≡ rows
      → any q rows ≡ true
      → Findable q kind (
          (after_archive rejects kind ids (
            true,
            put_archive
                (archive_name kind)
                (copies ++ map (λ row. (row, now)) (filter (with_ids ids) rows))
                store,
          )).1)
  after_copy-Findable now ids copies rows store there h =
      rw there (elim (Bool-cases (rejects kind ids)) [
        | inl r ↦ rw (r, there) (rw h refl)
        | inr r ↦ rw r (
            rw (text_eq_refl kind, text_eq_refl (archive_name kind))
              (copied_or_kept q now ids copies rows h))
      ])

  archive_and_delete-Findable :
      (now i : ℕ) (ids : List ℕ) (store : Store)
      → resolve_table_name kind ≡ some kind
      → any q (rows_in kind store) ≡ true
      → Findable q kind ((archive_and_delete rejects now kind true kind (i ∷ ids) store).1)
  unfolding archive_records
  archive_and_delete-Findable now i ids store known h =
      elim (Option-cases (store.archives (archive_name kind))) [
        | inl e ↦ rw (known, e) (still_there q kind store h)
        | inr (copies, e) ↦
            rw (known, e)
              (after_copy-Findable now (i ∷ ids) copies (store.tables kind) store refl h)
      ]

  remove_ids-Findable :
      (now : ℕ) (dry_run : Bool) (ids : List ℕ) (store : Store)
      → resolve_table_name kind ≡ some kind
      → any q (rows_in kind store) ≡ true
      → Findable q kind ((remove_ids rejects now dry_run kind true kind ids store).1)
  remove_ids-Findable now dry_run [] store known h = still_there q kind store h
  remove_ids-Findable now true (i ∷ ids) store known h = still_there q kind store h
  remove_ids-Findable now false (i ∷ ids) store known h =
      archive_and_delete-Findable now i ids store known h

-- Under a policy that asks for an archive, a clean-up of a type loses no row, whether it succeeds, is a dry
-- run or fails on the way: whatever test a row of the table passed before, a row of the table or of the
-- archive passes it afterwards.
pub cleanup_loses_nothing :
    (rejects : Text → List ℕ → Bool) (policies : Policies) (tenant : Option ℕ) (now : ℕ)
    (dry_run : Bool) (kind : Text) (p : RetentionPolicy) (q : Row → Bool) (store : Store)
    → get_policy kind policies ≡ some p
    → p.archive_before_delete ≡ true
    → any q (rows_in kind store) ≡ true
    → let after = (delete_expired_records rejects policies tenant now dry_run kind store).1 in
      (any q (rows_in kind after)
        || any (λ (a : Row × ℕ). q a.0) (copies_in (archive_name kind) after))
      ≡ true
unfolding delete_expired_records
cleanup_loses_nothing rejects policies tenant now dry_run kind p q store policy archived h =
    elim (Option-cases (resolve_table_name kind)) [
      | inl f ↦ rw (policy, f) (still_there q kind store h)
      | inr (name, f) ↦
          let known = f ∙ ap some (sym (resolved kind name f)) in
          rw (policy, known)
            (elim (Bool-cases p.auto_delete) [
              | inr a ↦ rw a (still_there q kind store h)
              | inl a ↦
                  rw (a, archived)
                    (remove_ids-Findable rejects q kind now dry_run
                      (ids_of (find_expired_records tenant now policies kind store)) store known h)
            ])
    ]

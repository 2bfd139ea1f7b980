-- ===== src/Retention/Removal.antt =====
-- What a clean-up leaves in the tables (services/api/src/tkp_api/governance/retention.py).
use tkp_platform.Base.{
  ltb, ◌+◌, ◌*◌, ℕ, ◌≤◌, ◌≡◌, ◌⊎◌, refl, sym, ap, ◌∙◌, subst, inl, inr, Bool, true, false, not,
  ◌&&◌, Option, none, some, some_inj, List, [], ◌∷◌, ◌==◌, any, contains, filter, length, arith,
  Bool-cases, Option-cases, ==→eq,
}
use tkp_platform.Base.AnyLaws.{any-false, any-and_filter}
use tkp_platform.Base.TableLaws.{filter-outside}
use tkp_platform.Base.Text.{Text, text_eq}
use tkp_platform.Base.TextLaws.{text_eq→eq}
use tkp_platform.Retention.Policies.{
  ℤ, pos, negsuc, RetentionPolicy, Policies, resource_tables, get_policy, resolve_table_name,
}
use tkp_platform.Retention.Service.{
  Row, Store, expired_in, find_expired_records, with_ids, archive_name, archive_records,
  delete_from, after_archive, archive_and_delete, remove_ids, delete_expired_records, clean_type,
  clean_types, cleanup_all_expired,
}
use tkp_platform.Retention.Selected.{ids_of, selected-expired, expired-selected}

abbrev pub rows_in : Text → Store → List Row
rows_in name store = store.tables name

-- The table is as it was, or it is the table of the type and has lost the rows with the ids.
abbrev Kept : Text → Text → List ℕ → Store → Store → Type 0
Kept n name ids before after =
    (rows_in n after ≡ rows_in n before)
    ⊎ ((text_eq n name ≡ true)
        × (rows_in n after ≡ filter (λ row. not (with_ids ids row)) (rows_in n before)))

archive_tables :
    (now : ℕ) (kind : Text) (ids : List ℕ) (store : Store)
    → ((archive_records now kind ids store).1).tables ≡ store.tables
unfolding archive_records
archive_tables now kind [] store = refl
archive_tables now kind (i ∷ ids) store = elim (Option-cases (resolve_table_name kind)) [
  | inl e ↦ rw e refl
  | inr (name, e) ↦ rw e (elim (Option-cases (store.archives (archive_name name))) [
    | inl a ↦ rw a refl
    | inr (copies, a) ↦ rw a refl
  ])
]

module _ (rejects : Text → List ℕ → Bool) where
  module _ (n name : Text) (ids : List ℕ) where
    delete_from-Kept :
        (archived : ℕ) (store : Store)
        → Kept n name ids store
            ((delete_from rejects name ids archived (store.tables name) store).1)
    delete_from-Kept archived store = elim (Bool-cases (rejects name ids)) [
      | inl r ↦ rw r (inl refl)
      | inr r ↦ rw r (elim (Bool-cases (text_eq n name)) [
        | inr f ↦ inl (rw f refl)
        | inl t ↦ inr (
          t,
          rw t (
              ap (λ m. filter (λ row. not (with_ids ids row)) (store.tables m))
                (sym (text_eq→eq n name t))),
        )
      ])
    ]

    after_archive-Kept :
        (copied : Bool) (store mid : Store)
        → mid.tables ≡ store.tables
        → Kept n name ids store ((after_archive rejects name ids (copied, mid)).1)
    after_archive-Kept false store mid h = inl (ap (λ ts. ts n) h)
    after_archive-Kept true store mid h =
        let before = ap (λ ts. ts n) h in
        elim (delete_from-Kept (length ids) mid) [
          | inl e ↦ inl (e ∙ before)
          | inr (t, e) ↦ inr (t, e ∙ ap (filter (λ row. not (with_ids ids row))) before)
        ]

    archive_and_delete-Kept :
        (now : ℕ) (kind : Text) (archive : Bool) (store : Store)
        → Kept n name ids store ((archive_and_delete rejects now kind archive name ids store).1)
    archive_and_delete-Kept now kind true store =
        let copy = archive_records now kind ids store in
        after_archive-Kept copy.0 store copy.1 (archive_tables now kind ids store)
    archive_and_delete-Kept now kind false store = delete_from-Kept 0 store

  remove_ids-Kept :
      (n name : Text) (ids : List ℕ) (now : ℕ) (dry_run archive : Bool) (kind : Text)
      (store : Store)
      → Kept n name ids store ((remove_ids rejects now dry_run kind archive name ids store).1)
  remove_ids-Kept n name [] now dry_run archive kind store = inl refl
  remove_ids-Kept n name (i ∷ ids) now true archive kind store = inl refl
  remove_ids-Kept n name (i ∷ ids) now false archive kind store =
      archive_and_delete-Kept n name (i ∷ ids) now kind archive store

pub resolved : (kind name : Text) → resolve_table_name kind ≡ some name → kind ≡ name
unfolding resolve_table_name
resolved kind name h = elim (Bool-cases (any (text_eq kind) resource_tables)) [
  | inl t ↦ some_inj (rw t at h)
  | inr n ↦ cc (rw n at h)
]

-- The row is one of the tenant's, if one is given.
abbrev in_scope : Option ℕ → Row → Bool
in_scope none row = true
in_scope (some tenant) row = row.tenant_id == tenant

-- What a policy says of a row: it is deleted automatically, and it is old enough.
abbrev pub goes_at : Option ℕ → ℕ → Bool → ℤ → Row → Bool
goes_at tenant now auto (negsuc n) row = false
goes_at tenant now auto (pos days) row =
    auto && (ltb (row.created_at + days * 86400) now && in_scope tenant row)

abbrev pub goes_under : Option ℕ → ℕ → Option RetentionPolicy → Row → Bool
goes_under tenant now none row = false
goes_under tenant now (some policy) row =
    goes_at tenant now policy.auto_delete policy.retention_days row

abbrev pub may_go : Policies → Option ℕ → (Text → ℕ) → Text → Row → Bool
may_go policies tenant clock name row =
    goes_under tenant (clock name) (get_policy name policies) row

module _ (tenant : Option ℕ) (now : ℕ) where
  expired_in-goes :
      (k : ℕ) (days : ℤ) (name : Text) (store : Store)
      → contains k (ids_of (expired_in tenant now days (some name) store)) ≡ true
      → any (λ r. r.id == k && goes_at tenant now true days r) (rows_in name store) ≡ true
  expired_in-goes k (negsuc n) name store h = cc
  expired_in-goes k (pos days) name store h =
      selected-expired tenant now days k (store.tables name) h

  pub goes-expired_in :
      (k : ℕ) (days : ℤ) (name : Text) (store : Store)
      → length (filter (goes_at tenant now true days) (rows_in name store)) ≤ 1000
      → any (λ r. r.id == k && goes_at tenant now true days r) (rows_in name store) ≡ true
      → contains k (ids_of (expired_in tenant now days (some name) store)) ≡ true
  goes-expired_in k (pos days) name store few h =
      expired-selected tenant now days k (store.tables name) few h
  goes-expired_in k (negsuc n) name store few h =
      let never = any-false (λ r. r.id == k && false) (rows_in name store) (λ r. ground arith) in
      cc (never, h)

  not_selected :
      (k : ℕ) (p : RetentionPolicy) (n name : Text) (store : Store)
      → text_eq n name ≡ true
      → p.auto_delete ≡ true
      → any (λ r. r.id == k && goes_under tenant now (some p) r) (rows_in n store) ≡ false
      → contains k (ids_of (expired_in tenant now p.retention_days (some name) store)) ≡ false
  not_selected k p n name store t auto stays =
      elim (Bool-cases
        (contains k (ids_of (expired_in tenant now p.retention_days (some name) store)))) [
          | inr f ↦ f
          | inl y ↦
              let e =
                ap
                  (λ b.
                    any (λ r. r.id == k && goes_at tenant now b p.retention_days r)
                      (rows_in n store))
                  auto
                ∙ ap
                    (λ m.
                      any (λ r. r.id == k && goes_at tenant now true p.retention_days r)
                        (rows_in m store))
                    (text_eq→eq n name t)
                ∙ expired_in-goes k p.retention_days name store y in
              cc (stays, e)
        ]

without_id :
    (k : ℕ) (ids : List ℕ) (rows : List Row)
    → contains k ids ≡ false
    → filter (λ r. r.id == k) (filter (λ r. not (with_ids ids r)) rows)
      ≡ filter (λ r. r.id == k) rows
without_id k ids rows h =
    filter-outside (λ r. r.id == k) (with_ids ids) rows
      (λ x e. ap (λ i. contains i ids) (==→eq x.id k e) ∙ h)

-- A test of the rows with an id has the same outcome where these rows are the same.
any_same :
    (q : Row → Bool) (k : ℕ) (xs ys : List Row)
    → filter (λ r. r.id == k) ys ≡ filter (λ r. r.id == k) xs
    → any (λ r. r.id == k && q r) xs ≡ false
    → any (λ r. r.id == k && q r) ys ≡ false
any_same q k xs ys same h =
    any-and_filter q (λ r. r.id == k) ys
    ∙ ap (any q) same
    ∙ sym (any-and_filter q (λ r. r.id == k) xs)
    ∙ h

module _ (rejects : Text → List ℕ → Bool) (policies : Policies) (tenant : Option ℕ) where
  delete-keeps :
      (now : ℕ) (dry_run : Bool) (kind n : Text) (k : ℕ) (store : Store)
      → (text_eq n kind ≡ true
          → any
              (λ r. r.id == k && goes_under tenant now (get_policy kind policies) r)
              (rows_in n store)
            ≡ false)
      → filter
          (λ r. r.id == k)
          (rows_in n ((delete_expired_records rejects policies tenant now dry_run kind store).1))
        ≡ filter (λ r. r.id == k) (rows_in n store)
  unfolding delete_expired_records find_expired_records
  delete-keeps now dry_run kind n k store stays = elim (Option-cases (get_policy kind policies)) [
    | inl e ↦ rw e refl
    | inr (p, e) ↦ elim (Option-cases (resolve_table_name kind)) [
      | inl f ↦ rw (e, f) refl
      | inr (name, f) ↦ elim (Bool-cases p.auto_delete) [
        | inr a ↦ rw (e, f, a) refl
        | inl a ↦
            let ids = ids_of (expired_in tenant now p.retention_days (some name) store) in
            rw (e, f, a)
              (elim (remove_ids-Kept rejects n name ids now dry_run p.archive_before_delete kind
                store) [
                  | inl same ↦ ap (filter (λ r. r.id == k)) same
                  | inr (t, less) ↦
                      ap (filter (λ r. r.id == k)) less
                      ∙ without_id k ids (rows_in n store) (
                          not_selected tenant now k p n name store t a (
                            subst
                              (λ o.
                                any (λ r. r.id == k && goes_under tenant now o r) (rows_in n store)
                                ≡ false)
                              e
                              (stays
                                (subst (λ x. text_eq n x ≡ true) (sym (resolved kind name f)) t))))
                ])
      ]
    ]
  ]

  module _ (clock : Text → ℕ) (dry_run : Bool) where
    clean_type-keeps :
        (kp : Text × RetentionPolicy) (n : Text) (k : ℕ) (store : Store)
        → any (λ r. r.id == k && may_go policies tenant clock n r) (rows_in n store) ≡ false
        → filter
            (λ r. r.id == k)
            (rows_in n ((clean_type rejects policies tenant clock dry_run kp store).1))
          ≡ filter (λ r. r.id == k) (rows_in n store)
    unfolding clean_type
    clean_type-keeps kp n k store stays = elim (Bool-cases (kp.1).auto_delete) [
      | inr a ↦ rw a refl
      | inl a ↦ rw a (
          delete-keeps (clock kp.0) dry_run kp.0 n k store (λ t.
            subst
              (λ x.
                any (λ r. r.id == k && may_go policies tenant clock x r) (rows_in n store) ≡ false)
              (text_eq→eq n kp.0 t) stays))
    ]

    clean_types-keeps :
        (ps : Policies) (n : Text) (k : ℕ) (store : Store)
        → any (λ r. r.id == k && may_go policies tenant clock n r) (rows_in n store) ≡ false
        → filter
            (λ r. r.id == k)
            (rows_in n ((clean_types rejects policies tenant clock dry_run ps store).1))
          ≡ filter (λ r. r.id == k) (rows_in n store)
    unfolding clean_types
    clean_types-keeps [] n k store stays = refl
    clean_types-keeps (p ∷ ps) n k store stays =
        let first = clean_type-keeps p n k store stays in
        let after = (clean_type rejects policies tenant clock dry_run p store).1 in
        clean_types-keeps ps n k after (
          any_same (may_go policies tenant clock n) k (rows_in n store) (rows_in n after) first
            stays)
        ∙ first

-- A clean-up of all types leaves every row alone that is too young, that is of another tenant than the
-- one asked for, or whose type is kept for ever, is not deleted automatically or has no policy.
pub cleanup_keeps :
    (rejects : Text → List ℕ → Bool) (policies : Policies) (tenant : Option ℕ) (clock : Text → ℕ)
    (dry_run : Bool) (n : Text) (k : ℕ) (store : Store)
    → any (λ r. r.id == k && may_go policies tenant clock n r) (rows_in n store) ≡ false
    → filter
        (λ r. r.id == k)
        (rows_in n ((cleanup_all_expired rejects policies tenant clock dry_run store).1))
      ≡ filter (λ r. r.id == k) (rows_in n store)
unfolding cleanup_all_expired
cleanup_keeps rejects policies tenant clock dry_run n k store stays =
    clean_types-keeps rejects policies tenant clock dry_run policies n k store stays

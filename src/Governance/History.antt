-- ===== src/Governance/History.antt =====
-- Any calls of the deletion service one after the other, by the tenants that make them
-- (services/api/src/tkp_api/governance/deletion.py).
use tkp_platform.Base.{
  ℕ, zero, suc, ◌≡◌, refl, ◌∙◌, subst, inl, inr, ◌⊎◌, Bool, Option, none, some, List, [], ◌∷◌,
  some_inj,
}
use tkp_platform.Base.Result.{Result, ok, err, Result-cases}
use tkp_platform.Base.Text.{Text}
use tkp_platform.Governance.Rows.{ResourceType, RequestStatus, DeletionRequest, GovernanceDb}
use tkp_platform.Governance.Deletion.{
  DeletionError, create_deletion_request, approve_deletion_request, cancel_deletion_request,
  reject_deletion_request, expire_pending_requests, Hashing, Run, execute_deletion,
}
use tkp_platform.Governance.Lifecycle.{
  ◌⟶◌, approve, reject, cancel, expire, complete, fail, ◌⟶*◌, here, then, IsFinal, SameRequest,
  Advanced, Follows, Follows-refl, create-Follows, approve-Follows, cancel-Follows, reject-Follows,
  expire-Follows, execute-Follows,
}

-- A call that changes the requests; `now` comes first, as in the functions.
pub data Call : Type 0 where
  create : ℕ → ℕ → ℕ → ResourceType → ℕ → Text → Call
  approve_request : ℕ → ℕ → ℕ → Call
  cancel_request : ℕ → ℕ → ℕ → Bool → Call
  reject_request : ℕ → ℕ → ℕ → Text → Call
  list_requests : ℕ → Call
  execute : Run → ℕ → Call

-- A call that raises changes nothing.
abbrev pub after : Result DeletionError GovernanceDb → GovernanceDb → GovernanceDb
after (ok db') db = db'
after (err e) db = db

module _ (h : Hashing) where
  abbrev pub perform : ℕ → Call → GovernanceDb → GovernanceDb
  perform tenant (create id now user type resource reason) db =
      after (create_deletion_request id now tenant user type resource reason db) db
  perform tenant (approve_request now id by) db = (approve_deletion_request now id tenant by db).1
  perform tenant (cancel_request now id user is_admin) db =
      (cancel_deletion_request now id tenant user is_admin db).1
  perform tenant (reject_request now id by reason) db =
      (reject_deletion_request now id tenant by reason db).1
  perform tenant (list_requests now) db = expire_pending_requests now tenant db
  perform tenant (execute e id) db = (execute_deletion h e id tenant db).1

  abbrev pub perform_all : List (ℕ × Call) → GovernanceDb → GovernanceDb
  perform_all [] db = db
  perform_all (c ∷ cs) db = perform_all cs (perform c.0 c.1 db)

  perform-Follows :
      (tenant : ℕ) (c : Call) (db : GovernanceDb)
      → Follows tenant db.requests (perform tenant c db).requests
  perform-Follows tenant (create id now user type resource reason) db =
      elim (Result-cases (create_deletion_request id now tenant user type resource reason db)) [
        | inl (db', e) ↦ rw e (create-Follows tenant id now user type resource reason db db' e)
        | inr (x, e) ↦ rw e (Follows-refl tenant db.requests)
      ]
  perform-Follows tenant (approve_request now id by) db = approve-Follows tenant now id by db
  perform-Follows tenant (cancel_request now id user is_admin) db =
      cancel-Follows tenant now id user is_admin db
  perform-Follows tenant (reject_request now id by reason) db =
      reject-Follows tenant now id by reason db
  perform-Follows tenant (list_requests now) db = expire-Follows tenant now db
  perform-Follows tenant (execute e id) db = execute-Follows h e id tenant db

abbrev pub row_at : ℕ → List DeletionRequest → Option DeletionRequest
row_at n [] = none
row_at zero (x ∷ xs) = some x
row_at (suc n) (x ∷ xs) = row_at n xs

-- How a row may stand later on: the same request, further along, and unchanged if it was final.
pub record Later (x y : DeletionRequest) : Type 0 where
  pub same : SameRequest x y
  pub path : x.status ⟶* y.status
  pub stays : IsFinal x.status → x ≡ y

Later-refl : (x : DeletionRequest) → Later x x
Later-refl x = record { same = (refl, refl, refl, refl); path = here; stays = λ f. refl }

no_move : {s t : RequestStatus} → s ⟶ t → IsFinal s → ⊥
no_move approve f = f
no_move reject f = f
no_move cancel f = f
no_move expire f = f
no_move complete f = f
no_move fail f = f

then_path : {s t u : RequestStatus} → s ⟶* t → t ⟶* u → s ⟶* u
then_path here q = q
then_path (then m p) q = then m (then_path p q)

Later-step : (tenant : ℕ) (x y : DeletionRequest) → (x ≡ y) ⊎ Advanced tenant x y → Later x y
Later-step tenant x y (inl e) = subst (Later x) e (Later-refl x)
Later-step tenant x y (inr a) = record {
  same = a.same;
  path = then a.move here;
  stays = λ f. absurd (no_move a.move f);
}

Later-trans : (x y z : DeletionRequest) → Later x y → Later y z → Later x z
Later-trans x y z p q = record {
  same = (q.same.0 ∙ p.same.0, q.same.1 ∙ p.same.1, q.same.2 ∙ p.same.2, q.same.3 ∙ p.same.3);
  path = then_path p.path q.path;
  stays =
      λ f. let e = p.stays f in e ∙ q.stays (subst (λ (r : DeletionRequest). IsFinal r.status) e f);
}

Follows-row :
    (tenant n : ℕ) (xs ys : List DeletionRequest) (x : DeletionRequest)
    → Follows tenant xs ys
    → row_at n xs ≡ some x
    → (y : DeletionRequest) × (row_at n ys ≡ some y) × Later x y
Follows-row tenant n [] ys x f h = cc
Follows-row tenant n (w ∷ xs) [] x f h = absurd f
Follows-row tenant zero (w ∷ xs) (y ∷ ys) x f h =
    (y, refl, subst (λ (v : DeletionRequest). Later v y) (some_inj h) (Later-step tenant w y f.0))
Follows-row tenant (suc n) (w ∷ xs) (y ∷ ys) x f h = Follows-row tenant n xs ys x f.1 h

-- Whatever calls of whatever tenants follow, a request keeps its place in the table, its tenant and
-- its resource, its status moves only along the lifecycle, and once it is final it does not change.
pub requests_follow_lifecycle :
    (h : Hashing) (cs : List (ℕ × Call)) (db : GovernanceDb) (n : ℕ) (x : DeletionRequest)
    → row_at n db.requests ≡ some x
    → (y : DeletionRequest) × (row_at n (perform_all h cs db).requests ≡ some y) × Later x y
requests_follow_lifecycle h [] db n x e = (x, e, Later-refl x)
requests_follow_lifecycle h (c ∷ cs) db n x e =
    let next = perform h c.0 c.1 db in
    let (y, at_y, first) =
      Follows-row c.0 n db.requests next.requests x (perform-Follows h c.0 c.1 db) e in
    let (z, at_z, rest) = requests_follow_lifecycle h cs next n y at_y in
    (z, at_z, Later-trans x y z first rest)

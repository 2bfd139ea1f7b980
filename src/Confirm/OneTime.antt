-- ===== src/Confirm/OneTime.antt =====
-- A confirmation serves the one who asked for it, and once
-- (services/api/src/tkp_api/services/sensitive_operation.py).
use tkp_platform.Base.{
  ℕ, ◌≡◌, refl, sym, ap, ◌∙◌, inl, inr, Bool, true, false, Option, none, some, [], ◌∷◌, ◌==◌,
  Bool-cases, Option-cases, ==→eq, ==_refl,
}
use tkp_platform.Base.Result.{ok, err, Result-cases, ok_inj}
use tkp_platform.Base.Text.{Text}
use tkp_platform.Base.TextLaws.{text_eq_refl}
use tkp_platform.Confirm.Service.{
  Confirmation, Redis, RedisLaws, not_found, Request, code_of, confirmation_data, check_code,
  request_confirmation, verify_confirmation, cancel_confirmation,
}

module _ {S : Type 0} (r : Redis S) (laws : RedisLaws r) where
  verify_absent :
      (id tenant user : ℕ) (given : Option Text) (s : S)
      → r.get id s ≡ none
      → verify_confirmation (some r) id given tenant user s ≡ err not_found
  unfolding verify_confirmation
  verify_absent id tenant user given s h = rw h refl

  -- A verification that succeeds is of a confirmation of that tenant and user, whose code, if it has
  -- one, was given, and yields its operation; afterwards the same confirmation is not found, whoever asks with whatever code.
  pub verify_once :
      (id tenant user : ℕ) (given : Option Text) (s s' : S) (operation : Text × Text)
      → verify_confirmation (some r) id given tenant user s ≡ ok (operation, s')
      → ((c : Confirmation) × (r.get id s ≡ some c)
          × (c.tenant_id ≡ tenant)
          × (c.user_id ≡ user)
          × (check_code c.confirmation_code given ≡ ok tt)
          × ((c.operation_type, c.operation_data) ≡ operation))
        × ((tenant' user' : ℕ) (given' : Option Text)
            → verify_confirmation (some r) id given' tenant' user' s' ≡ err not_found)
  unfolding verify_confirmation
  verify_once id tenant user given s s' operation h = elim (Option-cases (r.get id s)) [
    | inl e ↦ cc (rw e at h)
    | inr (c, e) ↦ elim (Bool-cases (c.tenant_id == tenant)) [
      | inr f ↦ cc (rw (e, f) at h)
      | inl t ↦ elim (Bool-cases (c.user_id == user)) [
        | inr f ↦ cc (rw (e, t, f) at h)
        | inl u ↦ elim (Result-cases (check_code c.confirmation_code given)) [
          | inr (x, f) ↦ cc (rw (e, t, u, f) at h)
          | inl (x, f) ↦
              let same : r.delete id s ≡ s' = ap (λ y. y.1) (ok_inj (rw (e, t, u, f) at h)) in
              let gone : r.get id s' ≡ none = ap (r.get id) (sym same) ∙ laws.get-delete id s in
              (
                (
                  c,
                  e,
                  ==→eq c.tenant_id tenant t,
                  ==→eq c.user_id user u,
                  f,
                  ap (λ y. y.0) (ok_inj (rw (e, t, u, f) at h)),
                ),
                λ tenant' user' given'. verify_absent id tenant' user' given' s' gone,
              )
        ]
      ]
    ]
  ]

  check_own_code :
      (require : Bool) (code : Text)
      → check_code (code_of require code) (code_of require code) ≡ ok tt
  unfolding check_code
  check_own_code false code = refl
  check_own_code true [] = refl
  check_own_code true (c ∷ code) = rw (==_refl c, text_eq_refl code) refl

  -- Whoever has asked for a confirmation can verify it with the id and the code that were returned,
  -- and gets the operation that was asked for.
  pub request_then_verify :
      (ttl id : ℕ) (code : Text) (q : Request) (s : S)
      → verify_confirmation
          (some r)
          id
          (request_confirmation (some r) ttl id code q s).0.confirmation_code
          q.tenant_id
          q.user_id
          (request_confirmation (some r) ttl id code q s).1
        ≡ ok (
          (q.operation_type, q.operation_data),
          r.delete id (request_confirmation (some r) ttl id code q s).1,
        )
  unfolding verify_confirmation request_confirmation confirmation_data
  request_then_verify ttl id code q s =
      rw
        (
          laws.get-setex id ttl (confirmation_data q code) s,
          ==_refl q.tenant_id,
          ==_refl q.user_id,
          check_own_code q.require_code code,
        )
        refl

  -- A confirmation that was cancelled is not found.
  cancel_then_verify :
      (id tenant user : ℕ) (given : Option Text) (s : S)
      → verify_confirmation (some r) id given tenant user (cancel_confirmation (some r) id s).1
        ≡ err not_found
  unfolding cancel_confirmation
  cancel_then_verify id tenant user given s =
      verify_absent id tenant user given (r.delete id s) (laws.get-delete id s)

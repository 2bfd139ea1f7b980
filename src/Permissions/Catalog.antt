-- ===== src/Permissions/Catalog.antt =====
-- The codes of the catalog are in normal form (services/api/src/tkp_api/services/permissions.py).
use tkp_platform.Base.{
  ◌≡◌, refl, ap, inl, inr, Bool, true, false, not, ◌&&◌, List, [], ◌∷◌, any, filter, map, arith,
  Bool-cases,
}
use tkp_platform.Base.Text.{Text, text_eq, strip}
use tkp_platform.Base.TextLaws.{text_eq→eq}
use tkp_platform.Permissions.Sets.{has_code}
use tkp_platform.Permissions.Actions.{
  permission_catalog, normalize_stripped, normalize_permission_code, is_blank, unknown_codes,
  no_codes,
}

abbrev is_fixed : Text → Bool
is_fixed c = text_eq (normalize_permission_code c) c && not (is_blank c)

catalog_fixed : any (λ c. not (is_fixed c)) permission_catalog ≡ false
unfolding normalize_permission_code normalize_stripped strip
catalog_fixed = refl

has-any :
    (f : Text → Bool) (c : Text) (xs : List Text)
    → has_code c xs ≡ true
    → any (λ d. not (f d)) xs ≡ false
    → f c ≡ true
has-any f c [] h n = cc
has-any f c (x ∷ xs) h n = elim (Bool-cases (text_eq c x)) [
  | inl e ↦ rw (text_eq→eq c x e) (ground (arith, n))
  | inr m ↦ has-any f c xs (rw m at h) (ground (arith, n))
]

fixed_code :
    (c : Text)
    → has_code c permission_catalog ≡ true
    → (normalize_permission_code c ≡ c) × (is_blank c ≡ false)
fixed_code c h =
    let e = has-any is_fixed c permission_catalog h catalog_fixed in
    (text_eq→eq (normalize_permission_code c) c (ground (arith, e)), ground (arith, e))

-- Reading codes of the catalog back changes none of them.
pub catalog_codes :
    (cs : List Text)
    → no_codes (unknown_codes cs) ≡ true
    → filter
        (λ c. has_code c permission_catalog)
        (map normalize_permission_code (filter (λ c. not (is_blank c)) cs))
      ≡ cs
catalog_codes [] h = refl
catalog_codes (c ∷ cs) h = elim (Bool-cases (has_code c permission_catalog)) [
  | inr n ↦ cc (rw n at h)
  | inl t ↦
      let (same, plain) = fixed_code c t in
      rw plain (rw same (rw t (ap (λ l. c ∷ l) (catalog_codes cs (rw t at h)))))
]

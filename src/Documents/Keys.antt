-- ===== src/Documents/Keys.antt =====
-- The keys under which `persist_upload` stores files
-- (services/api/src/tkp_api/services/storage.py).
use tkp_platform.Base.{ℕ, ◌≡◌, refl, ap, ◌∙◌, false, [], ◌∷◌, ◌++◌, arith, contains}
use tkp_platform.Base.DecimalLaws.{decimal_inj, decimal-slash}
use tkp_platform.Base.Decimal.{decimal}
use tkp_platform.Base.Text.{Text, codes}
use tkp_platform.Documents.Storage.{
  Storage, sanitize_prefix, safe_name, path_name, build_object_key,
}

cons_inj : {a b : ℕ} {s t : Text} → Path Text (a ∷ s) (b ∷ t) → (a ≡ b) × (s ≡ t)
cons_inj h = (cc, cc)

append_cancel : (front s t : Text) → front ++ s ≡ front ++ t → s ≡ t
append_cancel [] s t h = h
append_cancel (c ∷ front) s t h = append_cancel front s t (cons_inj h).1

-- The part before the first slash is read off.
cut :
    (s t u v : Text)
    → contains b'/' s ≡ false
    → contains b'/' t ≡ false
    → s ++ b'/' ∷ u ≡ t ++ b'/' ∷ v
    → (s ≡ t) × (u ≡ v)
cut [] [] u v hs ht h = (refl, (cons_inj h).1)
cut [] (c ∷ t) u v hs ht h = let e = (cons_inj h).0 in absurd (ground (arith, e, ht))
cut (c ∷ s) [] u v hs ht h = let e = (cons_inj h).0 in absurd (ground (arith, e, hs))
cut (c ∷ s) (d ∷ t) u v hs ht h =
    let (e, rest) = cons_inj h in
    let (front, back) = cut s t u v (ground (arith, hs)) (ground (arith, ht)) rest in
    (ap (λ x. x ∷ s) e ∙ ap (λ (x : Text). d ∷ x) front, back)

-- What the text of a UUID is: no two are the same, and none has a slash.
pub record IsUuidText (show_uuid : ℕ → Text) : Type 0 where
  pub inj : (a b : ℕ) → show_uuid a ≡ show_uuid b → a ≡ b
  pub slash : (a : ℕ) → contains b'/' (show_uuid a) ≡ false

-- The key of a stored file gives away the tenant, the knowledge base, the document, the version and the name
-- of the file that it was built from.
pub build_object_key_inj :
    (s : Storage) (t k d n t' k' d' n' : ℕ) (f f' : Text)
    → IsUuidText s.show_uuid
    → build_object_key s t k d n f ≡ build_object_key s t' k' d' n' f'
    → (t ≡ t')
      × (k ≡ k')
      × (d ≡ d')
      × (n ≡ n')
      × (safe_name (path_name f) ≡ safe_name (path_name f'))
unfolding build_object_key
build_object_key_inj s t k d n t' k' d' n' f f' uuid h =
    let after_tenant =
      append_cancel (codes "tenant/") _ _ (append_cancel (sanitize_prefix s.key_prefix) _ _ h) in
    let (et, after_kb) =
      cut (s.show_uuid t) (s.show_uuid t') _ _ (uuid.slash t) (uuid.slash t') after_tenant in
    let (ek, after_doc) =
      cut (s.show_uuid k) (s.show_uuid k') _ _ (uuid.slash k) (uuid.slash k')
        (append_cancel (codes "kb/") _ _ after_kb) in
    let (ed, after_v) =
      cut (s.show_uuid d) (s.show_uuid d') _ _ (uuid.slash d) (uuid.slash d')
        (append_cancel (codes "doc/") _ _ after_doc) in
    let (en, ef) =
      cut (decimal n) (decimal n') _ _ (decimal-slash n) (decimal-slash n')
        (append_cancel (codes "v") _ _ after_v) in
    (uuid.inj t t' et, uuid.inj k k' ek, uuid.inj d d' ed, decimal_inj n n' en, ef)

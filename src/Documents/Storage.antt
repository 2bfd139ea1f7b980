-- ===== src/Documents/Storage.antt =====
-- services/api/src/tkp_api/services/storage.py: the name and the parser type of an uploaded file and the key
-- under which it is stored. The text of a UUID is a parameter, as are the storage backends.
use tkp_platform.Base.{
  ℕ, not, ◌||◌, Option, none, some, List, [], ◌∷◌, ◌++◌, any, filter, ◌==◌, if◌then◌else◌,
}
use tkp_platform.Base.Decimal.{decimal}
use tkp_platform.Base.Result.{Result, ok, err}
use tkp_platform.Base.Text.{Text, codes, text_eq, lower, strip}
use tkp_platform.Chunker.Split.{is_empty}

-- The text up to the next separator joins the first part of the rest.
abbrev pub push_front : ℕ → List Text → List Text
push_front c [] = (c ∷ []) ∷ []
push_front c (part ∷ parts) = (c ∷ part) ∷ parts

-- `t.split(sep)`
unfoldable pub split_on : ℕ → Text → List Text
split_on sep [] = [] ∷ []
split_on sep (c ∷ t) =
    let rest = split_on sep t in if c == sep then [] ∷ rest else push_front c rest

-- The last element, or an empty text.
abbrev pub last_part : List Text → Text
last_part [] = []
last_part (p ∷ []) = p
last_part (p ∷ q ∷ rest) = last_part (q ∷ rest)

-- `Path(t).name`: the last part that is neither empty nor ".".
unfoldable pub path_name : Text → Text
path_name t = last_part (filter (λ p. not (is_empty p || text_eq p (codes "."))) (split_on b'/' t))

-- What stands from the last "." on, if there is one.
unfoldable pub from_last_dot : Text → Option Text
from_last_dot [] = none
from_last_dot (c ∷ t) = elim (from_last_dot t) [
  | some suffix ↦ some suffix
  | none ↦ if c == b'.' then some (c ∷ t) else none
]

-- A lone dot is no suffix.
abbrev pub suffix_or_empty : Option Text → Text
suffix_or_empty none = []
suffix_or_empty (some []) = []
suffix_or_empty (some (dot ∷ [])) = []
suffix_or_empty (some (dot ∷ c ∷ t)) = dot ∷ c ∷ t

-- `Path(t).suffix`: a dot that begins the name starts no suffix either.
abbrev pub suffix_of_name : Text → Text
suffix_of_name [] = []
suffix_of_name (first ∷ rest) = suffix_or_empty (from_last_dot rest)

unfoldable pub infer_parser_type : Text → Text
infer_parser_type filename =
    let ext = lower (suffix_of_name (path_name filename)) in
    if any (text_eq ext) (codes ".md" ∷ codes ".markdown" ∷ codes ".txt" ∷ [])
    then codes "markdown"
    else (if any (text_eq ext)
          (codes ".png" ∷ codes ".jpg" ∷ codes ".jpeg" ∷ codes ".webp" ∷ codes ".gif" ∷ [])
        then codes "image"
        else (if text_eq ext (codes ".pdf") then codes "pdf" else codes "generic"))

-- `t.strip("/")`
abbrev pub lstrip_slash : Text → Text
lstrip_slash [] = []
lstrip_slash (c ∷ t) = if c == b'/' then lstrip_slash t else c ∷ t

abbrev pub keep_last : ℕ → Text → Text
keep_last c [] = if c == b'/' then [] else c ∷ []
keep_last c (d ∷ t) = c ∷ d ∷ t

abbrev pub rstrip_slash : Text → Text
rstrip_slash [] = []
rstrip_slash (c ∷ t) = keep_last c (rstrip_slash t)

abbrev pub with_slash : Text → Text
with_slash [] = []
with_slash (c ∷ t) = c ∷ t ++ codes "/"

unfoldable pub sanitize_prefix : Option Text → Text
sanitize_prefix none = []
sanitize_prefix (some prefix) = with_slash (rstrip_slash (lstrip_slash (strip prefix)))

-- `Path(filename).name or "document.bin"`
abbrev pub safe_name : Text → Text
safe_name [] = codes "document.bin"
safe_name (c ∷ t) = c ∷ t

-- What the upload uses of its surroundings: `str` of a UUID; the setting `storage_key_prefix`; and what the
-- backend's `put_bytes` does with a key and bytes, which is to store them or to raise.
pub record Storage : Type 0 where
  pub show_uuid : ℕ → Text
  pub key_prefix : Option Text
  pub put_bytes : Text → Text → Result Text (Unit {0})

module _ (s : Storage) where
  unfoldable pub build_object_key : ℕ → ℕ → ℕ → ℕ → Text → Text
  build_object_key tenant kb document version filename =
      sanitize_prefix s.key_prefix
      ++ (codes "tenant/"
          ++ (s.show_uuid tenant
              ++ (codes "/kb/"
                  ++ (s.show_uuid kb
                      ++ (codes "/doc/"
                          ++ (s.show_uuid document
                              ++ (codes "/v"
                                  ++ (decimal version
                                      ++ (codes "/" ++ safe_name (path_name filename))))))))))

  abbrev pub stored_as : Text → Result Text (Unit {0}) → Result Text Text
  stored_as key (err e) = err e
  stored_as key (ok u) = ok key

  unfoldable pub persist_upload : ℕ → ℕ → ℕ → ℕ → Text → Text → Result Text Text
  persist_upload tenant kb document version filename content =
      let key = build_object_key tenant kb document version filename in
      stored_as key (s.put_bytes key content)

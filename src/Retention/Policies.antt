-- ===== src/Retention/Policies.antt =====
-- The retention policies (services/api/src/tkp_api/governance/retention.py).
use tkp_platform.Base.{ℕ, Bool, true, false, Option, none, some, List, [], ◌∷◌, any, if◌then◌else◌}
use tkp_platform.Base.Text.{Text, codes, text_eq}

pub data ℤ : Type 0 where
  pos : ℕ → ℤ
  negsuc : ℕ → ℤ

-- A negative number of days keeps the rows for ever.
pub record RetentionPolicy : Type 0 where
  pub resource_type : Text
  pub retention_days : ℤ
  pub auto_delete : Bool
  pub archive_before_delete : Bool

abbrev audit_logs : Text
audit_logs = codes "audit_logs"

abbrev retrieval_logs : Text
retrieval_logs = codes "retrieval_logs"

abbrev conversations : Text
conversations = codes "conversations"

abbrev agent_runs : Text
agent_runs = codes "agent_runs"

abbrev ingestion_jobs : Text
ingestion_jobs = codes "ingestion_jobs"

abbrev deletion_requests : Text
deletion_requests = codes "deletion_requests"

abbrev deletion_proofs : Text
deletion_proofs = codes "deletion_proofs"

abbrev pub Policies : Type 0
Policies = List (Text × RetentionPolicy)

abbrev entry : Text → ℤ → Bool → Bool → Text × RetentionPolicy
entry kind days delete archive = (
  kind,
  record {
    resource_type = kind;
    retention_days = days;
    auto_delete = delete;
    archive_before_delete = archive;
  },
)

abbrev pub default_retention_policies : Policies
default_retention_policies =
    entry audit_logs (pos 365) false true
    ∷ entry retrieval_logs (pos 90) true false
    ∷ entry conversations (pos 180) false true
    ∷ entry agent_runs (pos 90) true false
    ∷ entry ingestion_jobs (pos 30) true false
    ∷ entry deletion_requests (pos 730) false true
    ∷ entry deletion_proofs (negsuc 0) false false
    ∷ []

-- `_RESOURCE_TABLES` maps each of its keys to itself.
abbrev pub resource_tables : List Text
resource_tables =
    audit_logs ∷ retrieval_logs ∷ conversations ∷ agent_runs ∷ ingestion_jobs ∷ deletion_requests
    ∷ deletion_proofs ∷ []

-- `self.policies[key] = policy`
abbrev put_entry : Text → RetentionPolicy → Policies → Policies
put_entry key policy [] = (key, policy) ∷ []
put_entry key policy (p ∷ ps) =
    let rest = put_entry key policy ps in if text_eq p.0 key then (key, policy) ∷ ps else p ∷ rest

unfoldable pub set_policy : RetentionPolicy → Policies → Policies
set_policy policy = put_entry policy.resource_type policy

unfoldable pub get_policy : Text → Policies → Option RetentionPolicy
get_policy kind [] = none
get_policy kind (p ∷ ps) =
    let rest = get_policy kind ps in if text_eq p.0 kind then some p.1 else rest

unfoldable pub resolve_table_name : Text → Option Text
resolve_table_name kind = if any (text_eq kind) resource_tables then some kind else none

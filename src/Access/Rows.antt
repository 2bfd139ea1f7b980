-- ===== src/Access/Rows.antt =====
-- The rows that decide who may use what (services/api/src/tkp_api/models: enums.py, tenant.py,
-- workspace.py, knowledge.py). Only the columns that the checks read are kept.
use tkp_platform.Base.{ℕ, List}
use tkp_platform.Worker.Rows.{Document}

pub data MembershipStatus : Type 0 where
  active invited disabled : MembershipStatus

pub data TenantRole : Type 0 where
  owner admin member viewer : TenantRole

pub data WorkspaceStatus : Type 0 where
  active archived : WorkspaceStatus

pub data WorkspaceRole : Type 0 where
  owner editor viewer : WorkspaceRole

pub data KbStatus : Type 0 where
  active archived : KbStatus

pub data KbRole : Type 0 where
  owner editor viewer : KbRole

pub record TenantMembership : Type 0 where
  pub tenant_id : ℕ
  pub user_id : ℕ
  pub role : TenantRole
  pub status : MembershipStatus

pub record Workspace : Type 0 where
  pub id : ℕ
  pub tenant_id : ℕ
  pub status : WorkspaceStatus

pub record WorkspaceMembership : Type 0 where
  pub tenant_id : ℕ
  pub workspace_id : ℕ
  pub user_id : ℕ
  pub role : WorkspaceRole
  pub status : MembershipStatus

pub record KnowledgeBase : Type 0 where
  pub id : ℕ
  pub tenant_id : ℕ
  pub workspace_id : ℕ
  pub status : KbStatus

pub record KbMembership : Type 0 where
  pub tenant_id : ℕ
  pub kb_id : ℕ
  pub user_id : ℕ
  pub role : KbRole
  pub status : MembershipStatus

pub record AccessTables : Type 0 where
  pub tenant_memberships : List TenantMembership
  pub workspaces : List Workspace
  pub workspace_memberships : List WorkspaceMembership
  pub knowledge_bases : List KnowledgeBase
  pub kb_memberships : List KbMembership
  pub documents : List Document

-- ===== src/Governance/Domain.antt =====
-- src/governance/domain and src/collaboration/policy/permission-rule.ts: the records of governance.
-- A timestamp is a number of milliseconds, as in Work.Domain.
use tiny_office.Prelude.{ℕ, String, Option, List, [], Bool, eqb}
use tiny_office.Prelude.Json.{Json}
use tiny_office.Work.Domain.{Timestamp}

pub data Decision : Type 0 where
  allow deny require_approval : Decision

pub record PermissionRule : Type 0 where
  pub employee_id : Option String
  pub role : Option String
  pub action_name : String
  pub decision : Decision
  pub reason : Option String

-- What `evaluatePermission` reads of `EmployeeRuntimeConfig`.
pub record RuntimeConfig : Type 0 where
  pub employee_id : String
  pub role : String

pub record EmployeePolicy : Type 0 where
  pub employee_id : String
  pub role : String
  pub permission_rules : List PermissionRule
  pub created_at : Timestamp
  pub updated_at : Timestamp

pub data ApprovalStatus : Type 0 where
  pending approved rejected expired canceled : ApprovalStatus

pub data ContextKind : Type 0 where
  dm_thread channel_topic work_run intake_event : ContextKind

pub record Approval : Type 0 where
  pub id : String
  pub context_kind : ContextKind
  pub context_id : String
  pub session_key : String
  pub requested_by_member_id : String
  pub requested_approver_member_id : Option String
  pub requested_action : String
  pub requested_resource : Option String
  pub requested_input_snapshot : Json
  pub status : ApprovalStatus
  pub reason : String
  pub decision_note : Option String
  pub resolved_by_member_id : Option String
  pub created_at : Timestamp
  pub updated_at : Timestamp
  pub resolved_at : Option Timestamp

pub data GrantScope : Type 0 where
  one_time session work_run : GrantScope

pub record Grant : Type 0 where
  pub id : String
  pub approval_id : String
  pub member_id : String
  pub action : String
  pub resource : Option String
  pub scope : GrantScope
  pub context_kind : ContextKind
  pub context_id : String
  pub expires_at : Option Timestamp
  pub consumed_at : Option Timestamp
  pub created_at : Timestamp

pub record State : Type 0 where
  pub approvals : List Approval
  pub approval_grants : List Grant
  pub employee_policies : List EmployeePolicy

-- `createEmptyGovernanceState`
abbrev pub empty_governance : State
empty_governance = record { approvals = []; approval_grants = []; employee_policies = [] }

-- `===` on the statuses, kinds and scopes, by their numbers
abbrev pub approval_status_number : ApprovalStatus → ℕ
approval_status_number pending = 0
approval_status_number approved = 1
approval_status_number rejected = 2
approval_status_number expired = 3
approval_status_number canceled = 4

abbrev pub context_kind_number : ContextKind → ℕ
context_kind_number dm_thread = 0
context_kind_number channel_topic = 1
context_kind_number ContextKind.work_run = 2
context_kind_number intake_event = 3

abbrev pub is_undecided : ApprovalStatus → Bool
is_undecided s = eqb (approval_status_number s) 0

abbrev pub same_context_kind : ContextKind → ContextKind → Bool
same_context_kind a b = eqb (context_kind_number a) (context_kind_number b)

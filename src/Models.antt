-- ===== src/Models.antt =====
-- common/models/models.go, config.go and rules.go: the records that the merge queue reads and
-- writes. Fields that no modelled code reads are left out. A `time.Time` is the number of
-- nanoseconds since Go's zero time, so `t.IsZero()` is `t == 0`. Counts that the code only
-- increments are natural numbers; settings that may be negative are `ℤ`.
pub mod Approval
pub mod Rules
use asika.Prelude.{ℕ, ◌*◌, Bool, true, false, Option, List, Bytes, ◌==◌}
use asika.Prelude.Int.{ℤ}
use asika.Models.Rules.{LabelRule, AutoMergeConfig, StaleConfig}

abbrev pub Time : Type 0
Time = ℕ

abbrev pub second : ℕ
second = 1000000000

abbrev pub minute : ℕ
minute = 60 * second

abbrev pub is_zero : Time → Bool
is_zero t = t == 0

pub record SecurityAlert : Type 0 where
  pub type : Bytes
  pub title : Bytes
  pub severity : Bytes
  pub url : Bytes

pub record SecurityScanConfig : Type 0 where
  pub enabled : Bool
  pub block_on_alerts : Bool

pub record MergeStrategyRule : Type 0 where
  pub name : Bytes
  pub pattern : Bytes
  pub labels : List Bytes
  pub merge_method : Bytes
  pub priority : ℤ

pub record MergeQueueConfig : Type 0 where
  pub required_approvals : ℤ
  pub ci_check_required : Bool
  pub core_contributors : List Bytes
  pub fast_forward_only : Bool
  pub expression : Bytes
  pub security_scan : SecurityScanConfig
  pub merge_strategy_rules : List MergeStrategyRule
  pub default_merge_method : Bytes

pub record ApprovalRule : Type 0 where
  pub pattern : Bytes
  pub approvers : List Bytes
  pub min_count : ℤ

pub record PrSizeConfig : Type 0 where
  pub enabled : Bool
  pub lines_changed_warn : ℤ
  pub lines_changed_block : ℤ
  pub files_changed_warn : ℤ
  pub files_changed_block : ℤ
  pub block_merge : Bool
  pub big_pr_label : Bytes
  pub warn_pr_label : Bytes
  pub exempt_labels : List Bytes

pub record PrTemplateConfig : Type 0 where
  pub enabled : Bool
  pub require_body : Bool
  pub require_checklist : Bool
  pub block_merge : Bool
  pub incomplete_label : Bytes
  pub exempt_labels : List Bytes

pub record RepoGroup : Type 0 where
  pub name : Bytes
  pub mode : Bytes
  pub mirror_platform : Bytes
  pub github : Bytes
  pub gitlab : Bytes
  pub gitea : Bytes
  pub forgejo : Bytes
  pub codeberg : Bytes
  pub bitbucket : Bytes
  pub gerrit : Bytes
  pub ci_provider : Bytes
  pub merge_queue : MergeQueueConfig
  pub approval_rules : List ApprovalRule
  pub pr_size_limits : PrSizeConfig
  pub pr_template : PrTemplateConfig
  pub label_rules : List LabelRule

-- `RepoGroupConfig` has the fields of `RepoGroup`; only `mode` may still be empty.
abbrev pub RepoGroupConfig : Type 0
RepoGroupConfig = RepoGroup

pub record Config : Type 0 where
  pub repo_groups : List RepoGroupConfig
  pub label_rules : List LabelRule
  pub auto_merge : AutoMergeConfig
  pub stale : StaleConfig

pub record PrBranchInfo : Type 0 where
  pub base_branch : Bytes
  pub head_branch : Bytes
  pub head_sha : Bytes
  pub maintainer_can_modify : Bool

pub record PrEvent : Type 0 where
  pub timestamp : Time
  pub action : Bytes
  pub actor : Bytes

pub record PrRecord : Type 0 where
  pub id : Bytes
  pub repo_group : Bytes
  pub platform : Bytes
  pub pr_number : ℕ
  pub title : Bytes
  pub author : Bytes
  pub state : Bytes
  pub labels : List Bytes
  pub merge_commit_sha : Bytes
  pub spam_flag : Bool
  pub created_at : Time
  pub updated_at : Time
  pub events : List PrEvent
  pub is_draft : Bool
  pub has_conflict : Bool
  pub branch_info : Option PrBranchInfo
  pub body : Bytes
  pub security_blocked : Bool
  pub security_alerts : List SecurityAlert

pub record DiffFile : Type 0 where
  pub additions : ℕ
  pub deletions : ℕ

-- The status texts of manager.go; `other` is any text that the code does not write.
pub data QueueStatus : Type 0 where
  waiting checking merging done failed ready dead_letter : QueueStatus
  other : Bytes → QueueStatus

-- The validation states of serial_worker.go; `unset` is the empty text.
pub data ValidationStatus : Type 0 where
  unset validating rebasing waiting_ci ci_running ready validation_failed : ValidationStatus
  unknown : Bytes → ValidationStatus

pub record MergeCriteria : Type 0 where
  pub required_approvals : ℤ
  pub approved_by : List Bytes
  pub ci_status : Bytes

pub record QueueItem : Type 0 where
  pub pr_id : Bytes
  pub repo_group : Bytes
  pub status : QueueStatus
  pub added_at : Time
  pub last_checked : Time
  pub failure_reason : Bytes
  pub retry_count : ℕ
  pub next_retry_at : Time
  pub criteria : MergeCriteria
  pub schedule_at : Time
  pub validation_status : ValidationStatus
  pub validation_started : Time
  pub validation_detail : Bytes
  pub priority : ℤ
  pub security_blocked : Bool
  pub security_override : Bytes

-- ===== src/Models/Rules.antt =====
-- common/models/rules.go, config.go and models.go: the rules of the labeler, of the automatic merge
-- and of stale pull requests.
use asika.Prelude.{Bool, List, Bytes}
use asika.Prelude.Int.{ℤ}

pub record LabelCondition : Type 0 where
  pub pattern : Bytes

pub record LabelRule : Type 0 where
  pub pattern : Bytes
  pub label : Bytes
  pub color : Bytes
  pub conditions : List LabelCondition
  pub logic : Bytes
  pub priority : ℤ
  pub exclusive : Bool

pub record AutoMergeRule : Type 0 where
  pub name : Bytes
  pub labels : List Bytes
  pub required_approvals : ℤ
  pub ci_required : Bool
  pub exclude_labels : List Bytes
  pub exclude_authors : List Bytes
  pub enabled : Bool

pub record AutoMergeConfig : Type 0 where
  pub enabled : Bool
  pub rules : List AutoMergeRule

pub record StaleConfig : Type 0 where
  pub enabled : Bool
  pub days_until_stale : ℤ
  pub days_until_close : ℤ
  pub stale_label : Bytes
  pub exempt_labels : List Bytes
  pub exclude_authors : List Bytes
  pub notify_on_stale : Bool
  pub comment_on_stale : Bytes
  pub comment_on_close : Bytes
  pub remove_on_activity : Bool
  pub skip_draft_prs : Bool

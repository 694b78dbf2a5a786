-- ===== src/Workflow/Context.antt =====
-- `GetPRContext` of daemon/workflow/evaluator.go. The platform and the number come from the
-- environment of the run.
use asika.Prelude.{
  ℕ, ltb, length, prefix_error, ◌>>=◌, Bool, false, Option, none, some, Bytes, lit, text_eq,
  is_empty, Result, ok, fail, panic, if◌then◌else◌,
}
use asika.Models.{PrRecord, PrBranchInfo}
use asika.Models.Approval.{ApprovalStatus}
use asika.Queue.World.{Client}
use asika.Workflow.Expression.{PrContext}

pub record PlatformInfo : Type 0 where
  pub repo_owner : Bytes
  pub repo_name : Bytes
  pub pr_number : ℕ
  pub head_branch : Bytes

pub context_of : PrRecord → Bytes → Bool → PrContext
context_of pr ci_status approved = record {
  ci_passed = text_eq ci_status (lit "success");
  ci_failed = text_eq ci_status (lit "failure");
  has_conflicts = pr.has_conflict;
  is_approved = approved;
  is_draft = pr.is_draft;
  labels = pr.labels;
}

pub or_unknown : Result Bytes → Result Bytes
or_unknown (ok status) = ok status
or_unknown (fail e) = ok (lit "unknown")
or_unknown panic = panic

pub ci_status : Client → PlatformInfo → Option PrBranchInfo → Result Bytes
unfolding or_unknown
ci_status client info none = ok (lit "unknown")
ci_status client info (some branch) =
    if is_empty branch.head_sha
    then ok (lit "unknown")
    else or_unknown (client.get_ci_status info.repo_owner info.repo_name branch.head_sha)

pub is_approved : Result ApprovalStatus → Result Bool
is_approved (ok status) = ok (ltb 0 (length status.approvers))
is_approved (fail e) = ok false
is_approved panic = panic

-- A nil record panics.
pub required : Option PrRecord → Result PrRecord
required none = panic
required (some pr) = ok pr

pub get_pr_context : Client → PlatformInfo → Result PrContext
unfolding context_of ci_status is_approved required
get_pr_context client info = do
  found ←
      prefix_error (lit "failed to get PR: ")
        (client.get_pr info.repo_owner info.repo_name info.pr_number)
  pr ← required found
  status ← ci_status client info pr.branch_info
  approved ← is_approved (client.get_approvals 0 info.repo_owner info.repo_name info.pr_number)
  ok (context_of pr status approved)

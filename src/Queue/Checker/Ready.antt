-- ===== src/Queue/Checker/Ready.antt =====
-- `IsReadyToMerge` of checker.go: the checks before a pull request enters the queue.
pub mod Identity
pub mod Safety
pub mod Tests
use asika.Prelude.{
  ℕ, Bool, true, false, not, ◌&&◌, ◌||◌, Option, none, some, List, [], ◌∷◌, Bytes, lit, text_eq,
  is_empty, length, Result, ok, fail, panic, if◌then◌else◌,
}
use asika.Prelude.Int.{pos, lt_int}
use asika.Models.{RepoGroup, PrRecord, Config}
use asika.Config.{get_repo_group_by_name}
use asika.Queue.World.{World}
use asika.Queue.Check.{Check, CheckState, pure, lift, get_pr, require, require_if, ◌>>=◌}
use asika.Queue.Checker.Approvals.{fetch_approvals, filter_write_permission, check_ci}
use asika.Queue.Checker.Paths.{check_path_approvals}
use asika.Queue.Checker.Gates.{check_pr_size, check_pr_template, check_security}
use asika.Queue.Checker.Verdict.{needs_ci, has_rules, run_expression}

abbrev ReadyCheck : Type 0 → Type 0
ReadyCheck = Check Unit

ci_passed : World → RepoGroup → ReadyCheck Bool
ci_passed w group = do pr ← get_pr; (passed, status) ← lift (check_ci w pr group); pure passed

-- An error of the expression is logged, and the answer is no.
expression_verdict : Result Bool → ReadyCheck Bool
expression_verdict (ok b) = pure b
expression_verdict (fail e) = pure false
expression_verdict panic = lift panic

ready_expression : World → RepoGroup → List Bytes → ReadyCheck Bool
ready_expression w group approvals = do
  pr ← get_pr
  if is_empty group.merge_queue.expression
      then pure true
      else expression_verdict (run_expression w pr group approvals (lit "success"))

ready_gates : World → RepoGroup → List Bytes → ReadyCheck Bool
ready_gates w group approvals = do
  pr ← get_pr
  require_if (has_rules group) (lift (check_path_approvals w pr group approvals)) (pure false) (
      require_if group.pr_size_limits.enabled (check_pr_size w group) (pure false) (
        require_if group.pr_template.enabled (check_pr_template w group) (pure false) (
          require_if (needs_ci group) (ci_passed w group) (pure false)
            (require (check_security w group) (pure false) (ready_expression w group approvals)))))

ready_approvals : World → RepoGroup → ReadyCheck Bool
ready_approvals w group = do
  pr ← get_pr
  status ← lift (fetch_approvals w pr group)
  let approvals = filter_write_permission w pr group status.approvers
  if lt_int (pos (length approvals)) group.merge_queue.required_approvals
      then pure false
      else ready_gates w group approvals

in_group : World → Option RepoGroup → ReadyCheck Bool
in_group w none = pure false
in_group w (some group) = do
  pr ← get_pr
  if pr.has_conflict then pure false else ready_approvals w group

ready_checks : World → Config → ReadyCheck Bool
ready_checks w cfg = do
  pr ← get_pr
  if not (text_eq pr.state (lit "open")) || pr.is_draft
      then pure false
      else in_group w (get_repo_group_by_name cfg pr.repo_group)

abbrev start : PrRecord → CheckState Unit
start pr = record { pr = pr; item = tt; labeled = [] }

-- `none` is a nil record. The answer comes with the record that the security check may have
-- changed and the labels that were added.
pub is_ready_to_merge :
    World → Config → Option PrRecord → Result Bool × Option PrRecord × List Bytes
is_ready_to_merge w cfg none = (ok false, none, [])
is_ready_to_merge w cfg (some pr) =
    let (r, s) = ready_checks w cfg (start pr) in (r, some s.pr, s.labeled)

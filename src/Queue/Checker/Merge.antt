-- ===== src/Queue/Checker/Merge.antt =====
-- `ShouldMerge` of checker.go: the checks on an item of the queue.
pub mod Identity
pub mod Decision
pub mod Safety
pub mod Tests
use asika.Prelude.{
  ℕ, Bool, true, false, not, ◌&&◌, Option, none, some, List, [], ◌∷◌, ◌++◌, Bytes, lit, text_eq,
  is_empty, length, Result, ok, fail, panic, Err, plain, prefix_error, if◌then◌else◌,
}
use asika.Prelude.Int.{pos, lt_int}
use asika.Models.{RepoGroup, PrRecord, Config, QueueItem}
use asika.Config.{get_repo_group_by_name}
use asika.Queue.Expr.Values.{show_nat}
use asika.Queue.World.{World}
use asika.Queue.Check.{
  Check, CheckState, pure, throw, lift, get_pr, get_item, set_pr, set_item, transiently, require,
  require_if, ◌>>=◌, ◌>>◌,
}
use asika.Queue.Checker.Approvals.{fetch_approvals, filter_write_permission, check_ci}
use asika.Queue.Checker.Paths.{check_path_approvals}
use asika.Queue.Checker.Gates.{check_pr_size, check_pr_template, check_security, try_auto_rebase}
use asika.Queue.Checker.Verdict.{needs_ci, has_rules, run_expression, criteria_of}

abbrev pub MergeCheck : Type 0 → Type 0
MergeCheck = Check QueueItem

-- `item.Criteria = …; return verdict, nil`
unfoldable pub answer : RepoGroup → List Bytes → Bytes → Bool → MergeCheck Bool
answer group approvals ci verdict = do
  set_item (λ item. record item { criteria = criteria_of group approvals ci })
  pure verdict

unfoldable pub final_ci : RepoGroup → List Bytes → Bytes → MergeCheck Bool
final_ci group approvals ci =
    if not (text_eq ci (lit "none")) && not (text_eq ci (lit "success"))
    then answer group approvals ci false
    else answer group approvals (lit "success") true

unfoldable pub merge_gates : World → RepoGroup → List Bytes → Bytes → MergeCheck Bool
merge_gates w group approvals ci = do
  pr ← get_pr
  let reject = answer group approvals ci false
  require_if (has_rules group) (lift (check_path_approvals w pr group approvals)) reject (
      require_if group.pr_size_limits.enabled (check_pr_size w group) reject (
        require_if group.pr_template.enabled (check_pr_template w group) reject
          (final_ci group approvals ci)))

unfoldable pub merge_decision : World → RepoGroup → List Bytes → Bytes → MergeCheck Bool
merge_decision w group approvals ci = do
  pr ← get_pr
  if not (is_empty group.merge_queue.expression)
      then (do
        result ←
            lift (
              prefix_error (lit "merge expression error: ")
                (run_expression w pr group approvals ci))
        answer group approvals ci result)
      else if lt_int (pos (length approvals)) group.merge_queue.required_approvals
      then answer group approvals ci false
      else merge_gates w group approvals ci

unfoldable pub block : MergeCheck Bool
block = do
  pr ← get_pr
  set_item (λ item. record item {
    security_blocked = true;
    failure_reason =
        lit "Blocked by security alerts (" ++ (show_nat (length pr.security_alerts) ++ lit ")");
  })
  pure false

unfoldable pub unblock : World → RepoGroup → List Bytes → Bytes → MergeCheck Bool
unblock w group approvals ci = do
  set_item (λ item. record item { security_blocked = false })
  merge_decision w group approvals ci

unfoldable pub merge_security : World → RepoGroup → List Bytes → Bytes → MergeCheck Bool
merge_security w group approvals ci = do
  item ← get_item
  require_if (is_empty item.security_override) (transiently (check_security w group)) block
      (unblock w group approvals ci)

unfoldable pub merge_ci : World → RepoGroup → List Bytes → MergeCheck Bool
merge_ci w group approvals = do
  pr ← get_pr
  if needs_ci group
      then (do
        (passed, status) ← transiently (lift (check_ci w pr group))
        if not passed && is_empty group.merge_queue.expression
            then answer group approvals status false
            else merge_security w group approvals status)
      else merge_security w group approvals (lit "none")

unfoldable pub merge_approvals : World → RepoGroup → MergeCheck Bool
merge_approvals w group = do
  pr ← get_pr
  status ← lift (fetch_approvals w pr group)
  merge_ci w group (filter_write_permission w pr group status.approvers)

unfoldable pub merge_conflict : World → RepoGroup → MergeCheck Bool
merge_conflict w group = do
  pr ← get_pr
  if not pr.has_conflict
      then merge_approvals w group
      else if try_auto_rebase w pr group
      then (do set_pr (record pr { has_conflict = false }); merge_approvals w group)
      else pure false

unfoldable pub in_group : World → Bytes → Option RepoGroup → MergeCheck Bool
in_group w name none = throw (plain (lit "repo group not found: " ++ name))
in_group w name (some group) = merge_conflict w group

unfoldable pub merge_checks : World → Config → MergeCheck Bool
merge_checks w cfg = do
  pr ← get_pr
  if pr.is_draft
      then pure false
      else in_group w pr.repo_group (get_repo_group_by_name cfg pr.repo_group)

abbrev start : QueueItem → PrRecord → CheckState QueueItem
start item pr = record { pr = pr; item = item; labeled = [] }

-- The pull request is what `getPRFromDB` found. The answer comes with the item as the checks leave
-- it, which the caller stores, and the labels that were added.
unfoldable pub should_merge :
    World → Config → Result PrRecord → QueueItem → Result Bool × QueueItem × List Bytes
should_merge w cfg (ok pr) item =
    let (r, s) = merge_checks w cfg (start item pr) in (r, s.item, s.labeled)
should_merge w cfg (fail e) item = (fail e, item, [])
should_merge w cfg panic item = (panic, item, [])

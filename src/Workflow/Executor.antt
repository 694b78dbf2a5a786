-- ===== src/Workflow/Executor.antt =====
-- daemon/workflow/executor.go, and the order of `Run` in workflow.go.
use asika.Prelude.{
  Bool, not, ◌&&◌, ◌||◌, Option, none, some, List, [], ◌∷◌, ◌++◌, Bytes, lit, text_eq, is_empty,
  Result, ok, fail, panic, Err, plain, error_text, if◌then◌else◌,
}
use asika.Queue.World.{Client}
use asika.Workflow.Expression.{PrContext, Fueled, evaluate_condition}
use asika.Workflow.Settings.{
  WorkflowLabelRule, WorkflowMergeRule, WorkflowCloseRule, WorkflowConfig,
}
use asika.Workflow.Context.{PlatformInfo}

-- A call of the client that changes the pull request or its branch.
pub data Call : Type 0 where
  add_label remove_label comment merge delete_branch : Bytes → Call
  close : Call

-- `none` is success; the calls are listed with the oldest first.
abbrev pub Outcome : Type 0
Outcome = Option Err × List Call

-- The verdict on a condition: the fuel of `evaluate_condition` is always enough.
abbrev pub Verdict : Type 0
Verdict = Bytes → Result Bool

pub settled : Fueled → Result Bool
settled none = panic
settled (some r) = r

pub verdict_of : (List (Bytes × Bool) → List (Bytes × Bool)) → PrContext → Verdict
unfolding settled
verdict_of order ctx condition = settled (evaluate_condition order condition ctx)

pub label_calls : WorkflowLabelRule → List Call
label_calls rule =
    if text_eq rule.action (lit "add")
    then add_label rule.label ∷ []
    else if text_eq rule.action (lit "remove")
    then remove_label rule.label ∷ []
    else []

-- Errors of a condition and of the platform are logged.
pub execute_labels : Verdict → List WorkflowLabelRule → List Call
unfolding label_calls
execute_labels holds [] = []
execute_labels holds (rule ∷ rules) =
    let rest = execute_labels holds rules in
    elim (holds rule.condition) [
      | ok b ↦ if b then label_calls rule ++ rest else rest
      | fail e ↦ rest
      | panic ↦ rest
    ]

pub merge_method : WorkflowMergeRule → Bytes
merge_method rule = if is_empty rule.merge_method then lit "merge" else rule.merge_method

pub merged : Client → PlatformInfo → WorkflowMergeRule → Outcome
unfolding merge_method
merged client info rule =
    elim (client.merge_pr info.repo_owner info.repo_name info.pr_number (merge_method rule)) [
      | some e ↦ (
        some (plain (lit "failed to merge PR: " ++ error_text e)),
        merge (merge_method rule) ∷ [],
      )
      | none ↦
          if rule.delete_branch && not (is_empty info.head_branch)
          then (none, merge (merge_method rule) ∷ delete_branch info.head_branch ∷ [])
          else (none, merge (merge_method rule) ∷ [])
    ]

pub execute_merge : Client → PlatformInfo → Verdict → WorkflowMergeRule → Outcome
unfolding merged
execute_merge client info holds rule =
    if not rule.enabled then (none, []) else elim (holds rule.condition) [
      | ok b ↦ if not b || not rule.auto_merge then (none, []) else merged client info rule
      | fail e ↦ (some (plain (lit "failed to evaluate merge condition: " ++ error_text e)), [])
      | panic ↦ (none, [])
    ]

pub unless_empty : Bytes → Call → List Call → List Call
unless_empty text call calls = if is_empty text then calls else call ∷ calls

pub closed : Client → PlatformInfo → WorkflowCloseRule → Outcome
unfolding unless_empty
closed client info rule =
    let calls =
      unless_empty rule.add_label (add_label rule.add_label)
        (unless_empty rule.comment (comment rule.comment) (close ∷ [])) in
    elim (client.close_pr info.repo_owner info.repo_name info.pr_number) [
      | some e ↦ (some (plain (lit "failed to close PR: " ++ error_text e)), calls)
      | none ↦ (none, calls)
    ]

pub execute_close : Client → PlatformInfo → Verdict → WorkflowCloseRule → Outcome
unfolding closed
execute_close client info holds rule =
    if not rule.enabled then (none, []) else elim (holds rule.condition) [
      | ok b ↦ if b then closed client info rule else (none, [])
      | fail e ↦ (some (plain (lit "failed to evaluate close condition: " ++ error_text e)), [])
      | panic ↦ (none, [])
    ]

-- The first part, and the second if the first reports no error.
pub then_do : Outcome → Outcome → Outcome
then_do (some e, calls) later = (some e, calls)
then_do (none, calls) (err, later) = (err, calls ++ later)

-- `Run` behind the context of the pull request.
pub run_rules : Client → PlatformInfo → Verdict → WorkflowConfig → Outcome
unfolding execute_labels execute_merge execute_close then_do
run_rules client info holds cfg =
    if not cfg.enabled
    then (none, [])
    else then_do (none, execute_labels holds cfg.labels)
        (then_do (execute_merge client info holds cfg.merge)
          (execute_close client info holds cfg.close))

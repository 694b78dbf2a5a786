-- ===== src/Workflow/Settings.antt =====
-- daemon/workflow/config.go: the settings of a run and their validation.
use asika.Prelude.{
  ℕ, suc, Bool, not, ◌&&◌, ◌||◌, Option, none, some, List, [], ◌∷◌, ◌++◌, Bytes, lit, text_eq,
  is_empty, Err, plain, if◌then◌else◌,
}
use asika.Queue.Expr.Values.{show_nat}

pub record WorkflowLabelRule : Type 0 where
  pub condition : Bytes
  pub action : Bytes
  pub label : Bytes

pub record WorkflowMergeRule : Type 0 where
  pub enabled : Bool
  pub condition : Bytes
  pub auto_merge : Bool
  pub merge_method : Bytes
  pub delete_branch : Bool

pub record WorkflowCloseRule : Type 0 where
  pub enabled : Bool
  pub condition : Bytes
  pub comment : Bytes
  pub add_label : Bytes

pub record WorkflowConfig : Type 0 where
  pub enabled : Bool
  pub labels : List WorkflowLabelRule
  pub merge : WorkflowMergeRule
  pub close : WorkflowCloseRule

-- The rule of the number is in order; `none` is no error.
pub check_label : ℕ → WorkflowLabelRule → Option Err
check_label i rule =
    let at = lit "label rule " ++ show_nat i in
    if not (text_eq rule.action (lit "add")) && not (text_eq rule.action (lit "remove"))
    then some (
        plain (at ++ (lit ": action must be 'add' or 'remove', got '" ++ (rule.action ++ lit "'"))))
    else if is_empty rule.label
    then some (plain (at ++ lit ": label cannot be empty"))
    else if is_empty rule.condition
    then some (plain (at ++ lit ": condition cannot be empty"))
    else none

pub check_labels : ℕ → List WorkflowLabelRule → Option Err
unfolding check_label
check_labels i [] = none
check_labels i (rule ∷ rules) = elim (check_label i rule) [
  | some e ↦ some e
  | none ↦ check_labels (suc i) rules
]

pub is_method : Bytes → Bool
is_method method =
    is_empty method
    || (text_eq method (lit "merge")
        || (text_eq method (lit "squash") || text_eq method (lit "rebase")))

pub check_merge : WorkflowMergeRule → Option Err
unfolding is_method
check_merge rule =
    if not rule.enabled
    then none
    else if is_empty rule.condition
    then some (plain (lit "merge rule: condition cannot be empty when enabled"))
    else if is_method rule.merge_method
    then none
    else some (
        plain (
          lit "merge rule: merge_method must be 'merge', 'squash', or 'rebase', got '"
          ++ (rule.merge_method ++ lit "'")))

pub validate_config : WorkflowConfig → Option Err
unfolding check_labels check_merge
validate_config cfg = elim (check_labels 0 cfg.labels) [
  | some e ↦ some e
  | none ↦ elim (check_merge cfg.merge) [
    | some e ↦ some e
    | none ↦
        if cfg.close.enabled && is_empty cfg.close.condition
        then some (plain (lit "close rule: condition cannot be empty when enabled"))
        else none
  ]
]

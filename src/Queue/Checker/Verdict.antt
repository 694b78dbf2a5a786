-- ===== src/Queue/Checker/Verdict.antt =====
-- What `IsReadyToMerge` and `ShouldMerge` of checker.go share: the settings and the context of a
-- merge condition.
use asika.Prelude.{
  Bool, true, false, not, ◌&&◌, Option, none, some, List, [], ◌∷◌, Bytes, lit, text_eq, is_empty,
  length, count, Result, panic, if◌then◌else◌,
}
use asika.Models.{RepoGroup, PrRecord, MergeCriteria, is_zero}
use asika.Queue.Expr.{eval}
use asika.Queue.Expr.Values.{EvalContext}
use asika.Queue.World.{World}
use asika.Queue.Checker.Paths.{mem}

-- `mq.CICheckRequired && group.CIProvider != "none" && group.CIProvider != ""`
unfoldable pub needs_ci : RepoGroup → Bool
needs_ci group =
    group.merge_queue.ci_check_required
    && (not (text_eq group.ci_provider (lit "none")) && not (is_empty group.ci_provider))

unfoldable pub has_rules : RepoGroup → Bool
has_rules group = elim group.approval_rules [ [] ↦ false | _ ∷ _ ↦ true ]

unfoldable pub eval_context :
    (w : World) → PrRecord → RepoGroup → List Bytes → Bytes → EvalContext w.floats
eval_context w pr group approvals ci = record {
  approvals = length approvals;
  required = group.merge_queue.required_approvals;
  ci_status = ci;
  has_conflict = pr.has_conflict;
  is_draft = pr.is_draft;
  core_approved = count (mem group.merge_queue.core_contributors) approvals;
  author = pr.author;
  core_contributors = group.merge_queue.core_contributors;
  age_hours =
      if is_zero pr.created_at
      then w.floats.zero_float
      else w.floats.hours_since w.now pr.created_at;
  label_set = pr.labels;
}

-- The fuel of `eval` never runs out: `eval-ne-none`.
unfoldable pub finished : Option (Result Bool) → Result Bool
finished none = panic
finished (some r) = r

unfoldable pub run_expression : World → PrRecord → RepoGroup → List Bytes → Bytes → Result Bool
run_expression w pr group approvals ci =
    finished (eval w.floats group.merge_queue.expression (eval_context w pr group approvals ci))

unfoldable pub criteria_of : RepoGroup → List Bytes → Bytes → MergeCriteria
criteria_of group approvals ci = record {
  required_approvals = group.merge_queue.required_approvals;
  approved_by = approvals;
  ci_status = ci;
}

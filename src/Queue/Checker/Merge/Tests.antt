-- ===== src/Queue/Checker/Merge/Tests.antt =====
-- Runs of `ShouldMerge`.
use asika.Prelude.{◌≡◌, refl, true, ok, text_eq, lit, contains, error_text, has_prefix, trim_space}
use asika.Config.{get_repo_group_by_name, get_owner_repo_from_group, get_platform_for_group}
use asika.Queue.Checker.Approvals.{
  fetch_approvals, is_transient_error, filter_write_permission, check_ci,
}
use asika.Queue.Checker.Verdict.{
  needs_ci, has_rules, criteria_of, eval_context, finished, run_expression,
}
use asika.Queue.Checker.Gates.{
  check_security, scans, ask_alerts, find_repo, record_alerts, check_pr_size, check_pr_template,
  exceeds, is_body_missing, is_checklist_open, is_exempt, is_large, is_too_big, label_if_resolved,
  label_unless_empty, platform_of, pr_body, size_verdict, total_lines, try_auto_rebase,
}
use asika.Queue.Checker.Checklist.{validate_checklist}
use asika.Queue.Checker.Paths.{check_path_approvals, min_count, rule_met, rules_met}
use asika.Queue.Expr.Values.{show_nat}
use asika.Queue.Checker.Pattern.{match_pattern, has_glob, matches_regex}
use asika.Queue.Samples.{world, config, pull, item}
use asika.Queue.Checker.Merge.{
  answer, final_ci, merge_gates, merge_decision, block, unblock, merge_security, merge_ci,
  merge_approvals, merge_conflict, in_group, merge_checks, should_merge,
}
use asika.Queue.Checker.Merge.Safety.{IsMergeable, should_merge-IsMergeable}

merges : (should_merge world config (ok pull) item).0 ≡ ok true
unfolding should_merge merge_checks in_group merge_conflict merge_approvals merge_ci merge_security
    merge_decision merge_gates final_ci answer block unblock get_repo_group_by_name text_eq lit
    fetch_approvals get_owner_repo_from_group is_transient_error contains error_text needs_ci
    check_security scans ask_alerts find_repo record_alerts filter_write_permission has_rules
    get_platform_for_group has_prefix trim_space check_ci validate_checklist check_pr_size
    check_pr_template exceeds is_body_missing is_checklist_open is_exempt is_large is_too_big
    label_if_resolved label_unless_empty platform_of pr_body size_verdict total_lines
    try_auto_rebase check_path_approvals min_count rule_met rules_met criteria_of eval_context
    finished run_expression show_nat match_pattern has_glob matches_regex
merges = refl

should_merge-IsMergeable_example : IsMergeable world config pull item
should_merge-IsMergeable_example = should_merge-IsMergeable world config pull item merges

-- ===== src/Queue/Manager/Cycle/Tests.antt =====
-- Runs of `CheckQueue`.
use mathlib.Core.List.{Perm}
use asika.Prelude.{
  if◌then◌else◌, ℕ, ◌≡◌, refl, true, false, none, [], ◌∷◌, some, text_eq, lit, contains, error_text,
  has_prefix, trim_space,
}
use asika.Config.{get_repo_group_by_name, get_owner_repo_from_group, get_platform_for_group}
use asika.Queue.Checker.Approvals.{
  fetch_approvals, is_transient_error, filter_write_permission, check_ci,
}
use asika.Queue.Checker.Verdict.{
  needs_ci, has_rules, criteria_of, eval_context, finished, run_expression,
}
use asika.Queue.Checker.Gates.{
  check_security, scans, ask_alerts, find_repo, record_alerts, check_pr_size, check_pr_template,
  exceeds, is_body_missing, is_checklist_open, is_exempt, is_large, is_too_big, label_if_resolved,
  label_unless_empty, platform_of, pr_body, size_verdict, total_lines, try_auto_rebase,
}
use asika.Queue.Checker.Checklist.{validate_checklist}
use asika.Queue.Checker.Paths.{check_path_approvals, min_count, rule_met, rules_met}
use asika.Queue.Expr.Values.{show_nat}
use asika.Queue.Checker.Pattern.{match_pattern, has_glob, matches_regex}
use asika.Queue.Checker.Merge.{
  answer, final_ci, merge_gates, merge_decision, block, unblock, merge_security, merge_ci,
  merge_approvals, merge_conflict, in_group, merge_checks, should_merge,
}
use asika.Queue.Manager.Merge.{
  rebase_with, rebase_first, refreshed, pr_key, save_pr, merge_on, merge_in_group, merge_found,
  merge,
}
use asika.Queue.Manager.Method.{
  insert_rule, sort_rules, rule_matches, first_match, default_method, select_merge_method,
}
use asika.Queue.Store.{
  join_key, id_key, number_key, follow, by_number_entry, indexed, scan, repair, scanned,
  get_pr_by_index, put_pr_with_index, not_found, first_with_id, found_or, by_key_or_scan, of_index,
  get_pr_from_db, of_index_any, find_pr_by_id,
}
use asika.Db.{lookup, insert, remove}
use asika.Models.{QueueStatus}
use asika.Queue.World.{World}
use asika.Queue.Samples.{world, config, item, urgent, state}
use asika.Queue.Store.{State}
use asika.Queue.Manager.Cycle.{
  visit, is_scheduled_later, check_item, settle, verdict, after_check, as_checking, after_merge,
  as_merging, delete, put, store_item,
}
use asika.Queue.Manager.Cycle.{classify, before, check_queue, by_status}
use asika.Queue.Manager.Cycle.{scan_queue, scan_item, sort_items}
use asika.Queue.Manager.Filed.{IsFiled}
use asika.Queue.Manager.Cycle.Keys.{is_due_under, is_passed, check_queue-frame}
use asika.Queue.Manager.Cycle.Misfiled.{Both, check_queue-misfiled}
use asika.Queue.Manager.Cycle.Filing.{check_queue-IsFiled}
use asika.Queue.Manager.Cycle.Order.{IsStrict, IsOrdered, sort_items_lem}
use asika.Queue.Store.Again.{HasUniqueKeys}
use asika.Queue.Manager.Cycle.Departure.{HasDeparted, visit-HasDeparted}

abbrev worlds : ℕ → World
worlds n = world

-- The second item is being merged.
abbrev parked : State
parked = record state {
  queue =
      (lit "g#p1", some item)
      ∷ (lit "g#p3", some (record item { pr_id = lit "p3"; status = QueueStatus.merging }))
      ∷ [];
}

-- The second item is more urgent.
abbrev crossed : State
crossed = record state { queue = (lit "g#p1", some item) ∷ (lit "g#p2", some urgent) ∷ [] }

gone : lookup (lit "g#p1") (visit world config 100 (lit "g#p1") item state).0.queue ≡ none
unfolding visit is_scheduled_later check_item settle verdict after_check as_checking after_merge
    as_merging delete put store_item rebase_with rebase_first refreshed pr_key save_pr merge_on
    merge_in_group merge_found merge insert_rule sort_rules rule_matches first_match default_method
    select_merge_method join_key id_key number_key follow by_number_entry indexed scan repair
    scanned get_pr_by_index put_pr_with_index not_found first_with_id found_or by_key_or_scan
    of_index get_pr_from_db of_index_any find_pr_by_id lookup insert remove should_merge
    merge_checks in_group merge_conflict merge_approvals merge_ci merge_security merge_decision
    merge_gates final_ci answer block unblock get_repo_group_by_name text_eq lit fetch_approvals
    get_owner_repo_from_group is_transient_error contains error_text needs_ci check_security scans
    ask_alerts find_repo record_alerts filter_write_permission has_rules get_platform_for_group
    has_prefix trim_space check_ci validate_checklist check_pr_size check_pr_template exceeds
    is_body_missing is_checklist_open is_exempt is_large is_too_big label_if_resolved
    label_unless_empty platform_of pr_body size_verdict total_lines try_auto_rebase
    check_path_approvals min_count rule_met rules_met criteria_of eval_context finished
    run_expression show_nat match_pattern has_glob matches_regex
gone = refl

present : lookup (lit "g#p1") state.queue ≡ some (some item)
unfolding lookup lit text_eq
present = refl

one_record : HasUniqueKeys state.store.prs
one_record = (tt, tt)

visit-HasDeparted_example :
    HasDeparted world config 100 item state
      (visit world config 100 (lit "g#p1") item state).0.merges
visit-HasDeparted_example =
    visit-HasDeparted world config 100 (lit "g#p1") item state one_record present gone

in_merge : is_due_under 100 (lit "g#p3") parked.queue ≡ false
unfolding is_due_under is_passed classify by_status lit text_eq
in_merge = refl

check_queue-frame_example :
    lookup (lit "g#p3") (check_queue worlds config parked).queue ≡ lookup (lit "g#p3") parked.queue
check_queue-frame_example = check_queue-frame worlds config (lit "g#p3") parked in_merge

both_taken : Both worlds config (lit "g#p1") (lit "g#p2") item urgent
unfolding classify by_status
both_taken = (refl, refl)

urgent_first : before urgent item ≡ true
unfolding before
urgent_first = refl

check_queue-misfiled_example : check_queue worlds config crossed ≡ (
    let (st', goes_on) =
      visit world config 100 (lit "g#p1") urgent (record crossed { busy = true }) in
    record (if goes_on then (visit world config 100 (lit "g#p2") item st').0 else st') {
      busy = false;
    })
check_queue-misfiled_example =
    check_queue-misfiled worlds config (lit "g#p1") (lit "g#p2") item urgent crossed both_taken
      urgent_first refl refl

own_key : IsFiled state.queue
unfolding join_key lit
own_key = (refl, tt)

one_item : IsStrict (scan_queue world state.queue state.queue).items
unfolding scan_queue scan_item classify by_status
one_item = (tt, tt)

check_queue-IsFiled_example : IsFiled (check_queue worlds config state).queue
check_queue-IsFiled_example = check_queue-IsFiled worlds config state one_item own_key

sort_items_lem_example :
    IsOrdered (sort_items world (item ∷ urgent ∷ []))
    × Perm (sort_items world (item ∷ urgent ∷ [])) (item ∷ urgent ∷ [])
sort_items_lem_example = sort_items_lem world (item ∷ urgent ∷ [])

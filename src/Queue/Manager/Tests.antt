-- ===== src/Queue/Manager/Tests.antt =====
-- Runs of the operations of the manager.
use asika.Prelude.{
  ◌≡◌, refl, true, false, not, ◌&&◌, some, none, [], ◌∷◌, ◌++◌, lit, text_eq, length, has_prefix,
  All, if◌then◌else◌, contains,
}
use asika.Db.{lookup, insert, with_prefix}
use asika.Models.{QueueStatus}
use asika.Config.{get_owner_repo_from_group, get_repo_group_by_name}
use asika.Queue.Samples.{world, config, pull, item, state, urgent_rule}
use asika.Queue.Store.{
  State, join_key, id_key, number_key, follow, by_number_entry, indexed, scan, repair, scanned,
  get_pr_by_index, not_found, first_with_id, found_or, by_key_or_scan, of_index, of_index_any,
  find_pr_by_id,
}
use asika.Queue.Checker.Approvals.{resolve_repo}
use asika.Queue.Manager.Filed.{IsFiled}
use asika.Queue.Manager.Run.{add, run, restart, run-IsFiled}
use asika.Queue.Manager.Method.{
  sort_rules, insert_rule, rule_matches, first_match, default_method, select_merge_method,
}
use asika.Queue.Manager.Method.Choice.{IsBeaten, first_match-sort_rules}
use asika.Queue.Manager.Merge.{
  rebase_with, rebase_first, refreshed, pr_key, save_pr, merge_on, merge_in_group, merge_found,
  merge,
}
use asika.Queue.Manager.Admit.{
  new_item, is_some, add_to_queue_scheduled, remove_from_queue, clear_queue,
}
use asika.Queue.Manager.Admit.Entries.{
  is_eligible, add_to_queue_scheduled-lookup, remove_from_queue-lookup, clear_queue-lookup,
}
use asika.Queue.Manager.Recover.{stale, recover}
use asika.Queue.Manager.Recover.Settled.{
  is_in_flight, is_listed, recover-is_in_flight, recover-frame,
}

own_key : IsFiled state.queue
unfolding join_key lit
own_key = (refl, tt)

run-IsFiled_example : IsFiled (run (add world config pull 0 ∷ restart world ∷ []) state).queue
run-IsFiled_example = run-IsFiled (add world config pull 0 ∷ restart world ∷ []) state own_key

urgent_first : first_match pull (sort_rules world (urgent_rule ∷ [])) ≡ some urgent_rule
unfolding first_match sort_rules insert_rule rule_matches contains lit has_prefix text_eq
urgent_first = refl

first_match-sort_rules_example :
    (rule_matches pull urgent_rule ≡ true) × All (IsBeaten pull urgent_rule) (urgent_rule ∷ [])
first_match-sort_rules_example =
    first_match-sort_rules world pull (urgent_rule ∷ []) urgent_rule urgent_first

merged : (merge world config item state).0 ≡ none
unfolding merge merge_found merge_in_group merge_on save_pr pr_key refreshed rebase_first
    rebase_with select_merge_method default_method first_match rule_matches sort_rules insert_rule
    resolve_repo get_repo_group_by_name get_owner_repo_from_group find_pr_by_id of_index_any
    of_index by_key_or_scan found_or first_with_id not_found get_pr_by_index scanned repair scan
    indexed by_number_entry follow number_key id_key join_key lookup insert lit text_eq contains
    has_prefix
merged = refl

add_to_queue_scheduled-lookup_example :
    lookup (lit "g#p1") (add_to_queue_scheduled world config pull 0 state).2.queue ≡ (
      if text_eq (join_key pull.repo_group pull.id) (lit "g#p1")
        && (is_eligible pull
            && not (is_some (lookup (join_key pull.repo_group pull.id) state.queue)))
      then some (some (new_item world config pull 0))
      else lookup (lit "g#p1") state.queue)
add_to_queue_scheduled-lookup_example =
    add_to_queue_scheduled-lookup world config pull 0 state (lit "g#p1") refl

remove_from_queue-lookup_example :
    lookup (lit "g#p1") (remove_from_queue world (lit "g") (lit "p1") state).1.queue ≡ (
      if text_eq (join_key (lit "g") (lit "p1")) (lit "g#p1")
      then none
      else lookup (lit "g#p1") state.queue)
remove_from_queue-lookup_example =
    remove_from_queue-lookup world (lit "g") (lit "p1") (lit "g#p1") state refl

clear_queue-lookup_example :
    (lookup (lit "g#p1") (clear_queue world (lit "g") state).1.queue ≡ (
      if has_prefix (lit "g#p1") (lit "g" ++ lit "#")
      then none
      else lookup (lit "g#p1") state.queue))
    × ((clear_queue world (lit "g") state).0
        ≡ length (with_prefix (lit "g" ++ lit "#") state.queue))
clear_queue-lookup_example = clear_queue-lookup world (λ k. refl) (lit "g") (lit "g#p1") state

abbrev crashed : State
crashed = record state {
  queue =
      (lit "g#p1", some item)
      ∷ (lit "g#p3", some (record item { pr_id = lit "p3"; status = QueueStatus.merging }))
      ∷ [];
}

recover-is_in_flight_example : is_in_flight (lit "g#p3") (recover world crashed).queue ≡ false
recover-is_in_flight_example =
    recover-is_in_flight world (λ k. refl) (λ k. refl) (lit "g#p3") crashed

waits : is_listed (lit "g#p1") (stale crashed.queue) ≡ false
unfolding is_listed stale lit text_eq
waits = refl

recover-frame_example :
    lookup (lit "g#p1") (recover world crashed).queue ≡ lookup (lit "g#p1") crashed.queue
recover-frame_example = recover-frame world (lit "g#p1") crashed waits

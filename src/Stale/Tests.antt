-- ===== src/Stale/Tests.antt =====
-- Runs of the check for stale pull requests.
use asika.Prelude.{◌≡◌, refl, ◌++◌, true, some, [], ◌∷◌, lit, text_eq}
use asika.Prelude.Int.{pos}
use asika.Queue.Samples.{world, config, group}
use asika.Stale.{
  StaleWorld, StaleState, StaleAction, mark, has_label, label_base, last_activity_time,
  inactivity_days, days_inactive, is_author_excluded, is_exempt, is_due_to_close, action,
  analyze_pr,
}
use asika.Config.{group_platforms, platform_if, get_owner_repo_from_group}
use asika.Queue.Expr.Values.{show_nat}
use asika.Stale.Check.{
  reach, located, act_if, analyze_listed, analyze_list, then_also, analyze_platforms,
  check_repo_group, check_repo_group_dry_run,
}
use asika.Stale.Requests.{requests, planned}
use asika.Stale.Plan.{check_repo_group-planned}

-- A clock on which every open pull request has been idle for 31 days.
abbrev stale_world : StaleWorld
stale_world = record {
  world = world;
  days_between = λ from to. pos 31;
  render = λ body data'. some body;
}

abbrev start : StaleState
start = record { calls = []; notices = []; events = [] }

abbrev marked : StaleAction
marked = record {
  type = mark;
  platform = lit "github";
  repo = lit "o/r";
  pr_number = 7;
  reason = lit "inactive for 31 days";
}

dry_run : check_repo_group_dry_run stale_world config group ≡ some (marked ∷ [])
unfolding check_repo_group_dry_run analyze_platforms analyze_list analyze_listed reach then_also
    act_if located action analyze_pr is_due_to_close is_exempt is_author_excluded days_inactive
    inactivity_days last_activity_time label_base has_label group_platforms platform_if
    get_owner_repo_from_group show_nat lit text_eq
dry_run = refl

check_repo_group-planned_example :
    ((check_repo_group stale_world config group start).0 ≡ true)
    × (requests (check_repo_group stale_world config group start).1.calls
        ≡ requests start.calls ++ planned (marked ∷ []))
check_repo_group-planned_example =
    check_repo_group-planned stale_world config group start (marked ∷ []) dry_run

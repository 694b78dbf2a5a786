-- ===== src/Queue/Checker/Merge/Identity.antt =====
-- What `ShouldMerge` leaves alone in the item that it is given.
use asika.Prelude.{ℕ, ◌≡◌, refl, Bool, Option, none, some, List, Bytes, Result, ok, fail, panic}
use asika.Prelude.Int.{ℤ}
use asika.Models.{Time, QueueItem, QueueStatus, ValidationStatus, RepoGroup, PrRecord, Config}
use asika.Queue.World.{World}
use asika.Queue.Check.Keeps.{Keeps, keeps_rules}
use asika.Queue.Checker.Gates.Frame.{gate_rules}
use asika.Queue.Checker.Merge.{
  answer, final_ci, merge_gates, merge_decision, block, unblock, merge_security, merge_ci,
  merge_approvals, merge_conflict, in_group, merge_checks, should_merge,
}

-- All fields but the criteria, the security flag and the reason of a failure.
abbrev pub identity :
    QueueItem
    → Bytes × Bytes × QueueStatus × Time × Time × ℕ × Time × Time × ValidationStatus × Time × Bytes
      × ℤ × Bytes
identity item = (
  item.pr_id, item.repo_group, item.status, item.added_at, item.last_checked, item.retry_count,
  item.next_retry_at, item.schedule_at, item.validation_status, item.validation_started,
  item.validation_detail, item.priority, item.security_override,
)

module _
    (k : Bytes × Bytes × QueueStatus × Time × Time × ℕ × Time × Time × ValidationStatus × Time
      × Bytes × ℤ × Bytes) where
  abbrev Same : QueueItem → Type 0
  Same item = identity item ≡ k

  answer-Keeps :
      (group : RepoGroup) (approvals : List Bytes) (ci : Bytes) (verdict : Bool)
      → Keeps Same (answer group approvals ci verdict)
  unfolding answer
  answer-Keeps group approvals ci verdict = record { at = λ s h. h }

  block-Keeps : Keeps Same block
  unfolding block
  block-Keeps = record { at = λ s h. h }

  final_ci-Keeps :
      (group : RepoGroup) (approvals : List Bytes) (ci : Bytes)
      → Keeps Same (final_ci group approvals ci)
  unfolding final_ci
  final_ci-Keeps group approvals ci = search (keeps_rules, answer-Keeps)

  module _ (w : World) (group : RepoGroup) where
    merge_gates-Keeps :
        (approvals : List Bytes) (ci : Bytes) → Keeps Same (merge_gates w group approvals ci)
    unfolding merge_gates
    merge_gates-Keeps approvals ci = search (gate_rules, answer-Keeps, final_ci-Keeps) depth 9

    merge_decision-Keeps :
        (approvals : List Bytes) (ci : Bytes) → Keeps Same (merge_decision w group approvals ci)
    unfolding merge_decision
    merge_decision-Keeps approvals ci =
        search (keeps_rules, answer-Keeps, merge_gates-Keeps) depth 9

    unblock-Keeps :
        (approvals : List Bytes) (ci : Bytes) → Keeps Same (unblock w group approvals ci)
    unfolding unblock
    unblock-Keeps approvals ci = record { at = λ s h. (merge_decision-Keeps approvals ci).at _ h }

    merge_security-Keeps :
        (approvals : List Bytes) (ci : Bytes) → Keeps Same (merge_security w group approvals ci)
    unfolding merge_security
    merge_security-Keeps approvals ci = search (gate_rules, block-Keeps, unblock-Keeps) depth 9

    merge_ci-Keeps : (approvals : List Bytes) → Keeps Same (merge_ci w group approvals)
    unfolding merge_ci
    merge_ci-Keeps approvals = search (keeps_rules, answer-Keeps, merge_security-Keeps) depth 9

    merge_approvals-Keeps : Keeps Same (merge_approvals w group)
    unfolding merge_approvals
    merge_approvals-Keeps = search (keeps_rules, merge_ci-Keeps)

    merge_conflict-Keeps : Keeps Same (merge_conflict w group)
    unfolding merge_conflict
    merge_conflict-Keeps = search (keeps_rules, merge_approvals-Keeps) depth 9

  in_group-Keeps :
      (w : World) (name : Bytes) (group : Option RepoGroup) → Keeps Same (in_group w name group)
  unfolding in_group
  in_group-Keeps w name none = search keeps_rules
  in_group-Keeps w name (some group) = merge_conflict-Keeps w group

  merge_checks-Keeps : (w : World) (cfg : Config) → Keeps Same (merge_checks w cfg)
  unfolding merge_checks
  merge_checks-Keeps w cfg = search (keeps_rules, in_group-Keeps) depth 9

-- Whatever it answers, `ShouldMerge` changes no field of its item but the criteria, the security
-- flag and the reason of a failure.
pub should_merge-identity :
    (w : World) (cfg : Config) (found : Result PrRecord) (item : QueueItem)
    → identity (should_merge w cfg found item).1 ≡ identity item
unfolding should_merge
should_merge-identity w cfg (ok pr) item = (merge_checks-Keeps (identity item) w cfg).at _ refl
should_merge-identity w cfg (fail e) item = refl
should_merge-identity w cfg panic item = refl

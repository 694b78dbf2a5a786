-- ===== src/Queue/Checker/Ready/Identity.antt =====
-- What `IsReadyToMerge` leaves alone in the record that it is given.
use asika.Prelude.{
  ◌≡◌, refl, ap, ◌∙◌, Bool, Option, none, some, List, Bytes, Result, ok, fail, panic,
}
use asika.Models.{RepoGroup, PrRecord, Config}
use asika.Queue.World.{World}
use asika.Queue.Check.Record.{KeepsPr, record_rules}
use asika.Queue.Checker.Gates.{check_pr_size, check_pr_template, check_security}
use asika.Queue.Checker.Gates.Sound.{check_pr_size-pr, check_pr_template-pr, check_security-pr}
use asika.Queue.Checker.Ready.{
  ci_passed, expression_verdict, ready_expression, ready_gates, ready_approvals, in_group,
  ready_checks, start, is_ready_to_merge,
}

-- The id, the group, the state and the mark of a draft.
abbrev pub identity : PrRecord → Bytes × Bytes × Bytes × Bool
identity pr = (pr.id, pr.repo_group, pr.state, pr.is_draft)

module _ (k : Bytes × Bytes × Bytes × Bool) (w : World) where
  abbrev Same : PrRecord → Type 0
  Same pr = identity pr ≡ k

  module _ (group : RepoGroup) where
    size-KeepsPr : KeepsPr Same (check_pr_size {I = Unit} w group)
    size-KeepsPr = record { at = λ s h. rw (check_pr_size-pr w group s) h }

    template-KeepsPr : KeepsPr Same (check_pr_template {I = Unit} w group)
    template-KeepsPr = record { at = λ s h. rw (check_pr_template-pr w group s) h }

    security-KeepsPr : KeepsPr Same (check_security {I = Unit} w group)
    security-KeepsPr = record {
      at = λ s h. let (blocked, alerts, e) = check_security-pr w group s in ap identity e ∙ h;
    }

    ci_passed-KeepsPr : KeepsPr Same (ci_passed w group)
    unfolding ci_passed
    ci_passed-KeepsPr = search record_rules depth 9

    expression_verdict-KeepsPr : (r : Result Bool) → KeepsPr Same (expression_verdict r)
    unfolding expression_verdict
    expression_verdict-KeepsPr (ok b) = search record_rules
    expression_verdict-KeepsPr (fail e) = search record_rules
    expression_verdict-KeepsPr panic = search record_rules

    ready_expression-KeepsPr :
        (approvals : List Bytes) → KeepsPr Same (ready_expression w group approvals)
    unfolding ready_expression
    ready_expression-KeepsPr approvals = search (record_rules, expression_verdict-KeepsPr) depth 9

    ready_gates-KeepsPr : (approvals : List Bytes) → KeepsPr Same (ready_gates w group approvals)
    unfolding ready_gates
    ready_gates-KeepsPr approvals =
        search
          (
            record_rules, size-KeepsPr, template-KeepsPr, security-KeepsPr, ci_passed-KeepsPr,
            ready_expression-KeepsPr,
          )
          depth 12

    ready_approvals-KeepsPr : KeepsPr Same (ready_approvals w group)
    unfolding ready_approvals
    ready_approvals-KeepsPr = search (record_rules, ready_gates-KeepsPr) depth 9

  in_group-KeepsPr : (group : Option RepoGroup) → KeepsPr Same (in_group w group)
  unfolding in_group
  in_group-KeepsPr none = search record_rules
  in_group-KeepsPr (some group) = search (record_rules, ready_approvals-KeepsPr) depth 9

  ready_checks-KeepsPr : (cfg : Config) → KeepsPr Same (ready_checks w cfg)
  unfolding ready_checks
  ready_checks-KeepsPr cfg = search (record_rules, in_group-KeepsPr) depth 9

-- The record that `IsReadyToMerge` leaves has the id, the group, the state and the mark of a draft
-- that it had before.
pub is_ready_to_merge-identity :
    (w : World) (cfg : Config) (pr seen : PrRecord)
    → (is_ready_to_merge w cfg (some pr)).1 ≡ some seen
    → identity seen ≡ identity pr
unfolding is_ready_to_merge
is_ready_to_merge-identity w cfg pr seen h =
    let left : seen ≡ (ready_checks w cfg (start pr)).1.pr = cc in
    ap identity left ∙ (ready_checks-KeepsPr (identity pr) w cfg).at (start pr) refl

-- ===== src/Queue/Checker/Gates/Frame.antt =====
-- The gates do not touch the queue item.
use asika.Prelude.{Option, none, some, List, [], ◌∷◌, Bytes, Result, ok, fail, panic}
use asika.Models.{PrRecord, RepoGroup, PrSizeConfig, DiffFile, SecurityAlert}
use asika.Queue.World.{World, Client}
use asika.Queue.Check.{pure}
use asika.Queue.Check.Keeps.{Keeps, keeps_rules}
use asika.Queue.Checker.Approvals.{resolve_repo}
use asika.Queue.Checker.Gates.{
  check_pr_size, check_pr_template, check_security, label_unless_empty, size_verdict,
  label_if_resolved, record_alerts, ask_alerts,
}

module _ {I : Type 0} {Q : I → Type 0} where
  label_unless_empty-Keeps : (label : Bytes) → Keeps Q (label_unless_empty {I = I} label)
  unfolding label_unless_empty
  label_unless_empty-Keeps label = search keeps_rules

  size_verdict-Keeps :
      (cfg : PrSizeConfig) (files : List DiffFile) → Keeps Q (size_verdict {I = I} cfg files)
  unfolding size_verdict
  size_verdict-Keeps cfg files = search (keeps_rules, label_unless_empty-Keeps)

  pub check_pr_size-Keeps :
      (w : World) (group : RepoGroup) → Keeps Q (check_pr_size {I = I} w group)
  unfolding check_pr_size
  check_pr_size-Keeps w group = search (keeps_rules, size_verdict-Keeps) depth 9

  label_if_resolved-Keeps :
      (w : World) (pr : PrRecord) (group : RepoGroup) (label : Bytes)
      → Keeps Q (label_if_resolved {I = I} w pr group label)
  unfolding label_if_resolved
  label_if_resolved-Keeps w pr group label =
      elim (resolve_repo w pr group [])
        as (λ r.
          Keeps Q
            (elim r [ ok _ ↦ label_unless_empty label | fail e ↦ pure tt | panic ↦ pure tt ])) [
              | ok _ ↦ label_unless_empty-Keeps label
              | fail e ↦ search keeps_rules
              | panic ↦ search keeps_rules
            ]

  pub check_pr_template-Keeps :
      (w : World) (group : RepoGroup) → Keeps Q (check_pr_template {I = I} w group)
  unfolding check_pr_template
  check_pr_template-Keeps w group = search (keeps_rules, label_if_resolved-Keeps) depth 9

  record_alerts-Keeps :
      (pr : PrRecord) (r : Result (List SecurityAlert)) → Keeps Q (record_alerts {I = I} pr r)
  unfolding record_alerts
  record_alerts-Keeps pr (fail e) = search keeps_rules
  record_alerts-Keeps pr panic = search keeps_rules
  record_alerts-Keeps pr (ok []) = search keeps_rules
  record_alerts-Keeps pr (ok (alert ∷ alerts)) = search keeps_rules

  ask_alerts-Keeps :
      (pr : PrRecord) (r : Option (Client × Bytes × Bytes)) → Keeps Q (ask_alerts {I = I} pr r)
  unfolding ask_alerts
  ask_alerts-Keeps pr none = search keeps_rules
  ask_alerts-Keeps pr (some (client, owner, repo)) = record_alerts-Keeps pr _

  pub check_security-Keeps :
      (w : World) (group : RepoGroup) → Keeps Q (check_security {I = I} w group)
  unfolding check_security
  check_security-Keeps w group = search (keeps_rules, ask_alerts-Keeps) depth 9

pub ruleset gate_rules =
    (keeps_rules, check_pr_size-Keeps, check_pr_template-Keeps, check_security-Keeps)

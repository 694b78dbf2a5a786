-- ===== src/Queue/Checker/Merge/Decision.antt =====
-- The second half of `ShouldMerge`: what a yes of the security check and of the decision means.
use mathlib.Core.Path.{subst}
use asika.Prelude.{
  ◌≡◌, refl, ◌⊎◌, inl, inr, Bool, true, false, not, List, Bytes, lit, text_eq_iff, is_empty, length,
  ok, arith, prefix_error, prefix_error-eq-ok, wrap_transient-eq-ok,
}
use asika.Prelude.Int.{pos, lt_int}
use asika.Models.{RepoGroup, PrRecord, QueueItem}
use asika.Queue.World.{World}
use asika.Queue.Check.{CheckState, lift, require_if, transiently}
use asika.Queue.Check.Invert.{Refuses, >>=-eq-ok, require_if-eq-ok, if-eq-ok}
use asika.Queue.Checker.Paths.{ArePathsApproved, check_path_approvals, check_path_approvals_sound}
use asika.Queue.Checker.Gates.{check_pr_size, check_pr_template, check_security}
use asika.Queue.Checker.Gates.Sound.{
  IsSizeOk, check_pr_size_sound, check_pr_size-pr, IsTemplateOk, check_pr_template_sound, IsSecure,
  check_security_sound, DiffersInAlerts, check_security-pr,
}
use asika.Queue.Checker.Verdict.{has_rules, run_expression}
use asika.Queue.Checker.Merge.{
  answer, final_ci, merge_gates, merge_decision, block, unblock, merge_security,
}

-- The gates of a group that has no merge condition.
pub record IsApproved (w : World) (pr : PrRecord) (group : RepoGroup) (approvals : List Bytes)
    (ci : Bytes) : Type 0 where
  pub unconditional : is_empty group.merge_queue.expression ≡ true
  pub enough : lt_int (pos (length approvals)) group.merge_queue.required_approvals ≡ false
  pub paths : (has_rules group ≡ false) ⊎ ArePathsApproved w pr group approvals
  pub size : (group.pr_size_limits.enabled ≡ false) ⊎ IsSizeOk w pr group
  pub template : (group.pr_template.enabled ≡ false) ⊎ IsTemplateOk w pr group
  pub ci_green : (ci ≡ lit "none") ⊎ (ci ≡ lit "success")

pub answer-Refuses :
    (group : RepoGroup) (approvals : List Bytes) (ci : Bytes)
    → Refuses (answer group approvals ci false)
unfolding answer
answer-Refuses group approvals ci s h = cc

-- `answer` answers what it is given.
answer-yes :
    (group : RepoGroup) (approvals : List Bytes) (ci : Bytes) (b : Bool) (s : CheckState QueueItem)
    → (answer group approvals ci b s).0 ≡ ok true
    → b ≡ true
unfolding answer
answer-yes group approvals ci b s h = cc

block-Refuses : Refuses block
unfolding block
block-Refuses s h = cc

module _ (w : World) (group : RepoGroup) (approvals : List Bytes) (ci : Bytes) where
  final_ci_sound :
      (s : CheckState QueueItem)
      → (final_ci group approvals ci s).0 ≡ ok true
      → (ci ≡ lit "none") ⊎ (ci ≡ lit "success")
  unfolding final_ci answer
  final_ci_sound s h = ground (arith, text_eq_iff ci (lit "none"), text_eq_iff ci (lit "success"))

  template_sound :
      (s : CheckState QueueItem)
      → (require_if group.pr_template.enabled
          (check_pr_template w group)
          (answer group approvals ci false)
          (final_ci group approvals ci)
          s).0
        ≡ ok true
      → ((group.pr_template.enabled ≡ false) ⊎ IsTemplateOk w s.pr group)
        × ((ci ≡ lit "none") ⊎ (ci ≡ lit "success"))
  template_sound s h =
      elim (require_if-eq-ok group.pr_template.enabled (check_pr_template w group) _ _ s
        (answer-Refuses group approvals ci) h) [
          | inl (e, k) ↦ (inl e, final_ci_sound s k)
          | inr (e, m, k) ↦ (inr (check_pr_template_sound w group s m), final_ci_sound _ k)
        ]

  size_sound :
      (s : CheckState QueueItem)
      → (require_if group.pr_size_limits.enabled
          (check_pr_size w group)
          (answer group approvals ci false)
          (require_if group.pr_template.enabled
            (check_pr_template w group)
            (answer group approvals ci false)
            (final_ci group approvals ci))
          s).0
        ≡ ok true
      → ((group.pr_size_limits.enabled ≡ false) ⊎ IsSizeOk w s.pr group)
        × ((group.pr_template.enabled ≡ false) ⊎ IsTemplateOk w s.pr group)
        × ((ci ≡ lit "none") ⊎ (ci ≡ lit "success"))
  size_sound s h =
      elim (require_if-eq-ok group.pr_size_limits.enabled (check_pr_size w group) _ _ s
        (answer-Refuses group approvals ci) h) [
          | inl (e, k) ↦ let (t, c) = template_sound s k in (inl e, t, c)
          | inr (e, m, k) ↦
              let (t, c) = template_sound (check_pr_size w group s).1 k in
              (
                inr (check_pr_size_sound w group s m),
                subst (λ pr. (group.pr_template.enabled ≡ false) ⊎ IsTemplateOk w pr group)
                    (check_pr_size-pr w group s) t,
                c,
              )
        ]

  merge_gates_sound :
      (s : CheckState QueueItem)
      → is_empty group.merge_queue.expression ≡ true
      → lt_int (pos (length approvals)) group.merge_queue.required_approvals ≡ false
      → (merge_gates w group approvals ci s).0 ≡ ok true
      → IsApproved w s.pr group approvals ci
  unfolding merge_gates
  merge_gates_sound s none_set enough h =
      elim (require_if-eq-ok (has_rules group) (lift (check_path_approvals w s.pr group approvals))
        _ _ s (answer-Refuses group approvals ci) h) [
          | inl (e, k) ↦
              let (z, t, c) = size_sound s k in
              record {
                unconditional = none_set;
                enough = enough;
                paths = inl e;
                size = z;
                template = t;
                ci_green = c;
              }
          | inr (e, m, k) ↦
              let (z, t, c) = size_sound s k in
              record {
                unconditional = none_set;
                enough = enough;
                paths = inr (check_path_approvals_sound w s.pr group approvals m);
                size = z;
                template = t;
                ci_green = c;
              }
        ]

  -- The merge condition holds, or there is none and the gates are passed.
  abbrev pub IsDecided : PrRecord → Type 0
  IsDecided pr =
      (is_empty group.merge_queue.expression ≡ false)
        × (run_expression w pr group approvals ci ≡ ok true)
      ⊎ IsApproved w pr group approvals ci

  merge_decision_sound :
      (s : CheckState QueueItem)
      → (merge_decision w group approvals ci s).0 ≡ ok true
      → IsDecided s.pr
  unfolding merge_decision
  merge_decision_sound s h = elim (if-eq-ok (not (is_empty group.merge_queue.expression)) _ _ s h) [
    | inl (e, k) ↦
        let (b, ran, k') =
          >>=-eq-ok (lift (prefix_error _ (run_expression w s.pr group approvals ci))) _ s k in
        inl (
          ground arith,
          subst (λ b. run_expression w s.pr group approvals ci ≡ ok b)
              (answer-yes group approvals ci b s k') (prefix_error-eq-ok _ _ ran),
        )
    | inr (e, k) ↦
        elim (if-eq-ok (lt_int (pos (length approvals)) group.merge_queue.required_approvals) _ _ s
          k) [
            | inl (few, k') ↦ absurd (answer-Refuses group approvals ci s k')
            | inr (enough, k') ↦ inr (merge_gates_sound s (ground arith) enough k')
          ]
  ]

module _ (w : World) (group : RepoGroup) (approvals : List Bytes) (ci : Bytes) where
  pub record IsCleared (item : QueueItem) (pr : PrRecord) : Type 0 where
    pub secure : (is_empty item.security_override ≡ false) ⊎ IsSecure w pr group
    pub seen : PrRecord
    pub differs : DiffersInAlerts pr seen
    pub decided : IsDecided w group approvals ci seen

  pub merge_security_sound :
      (s : CheckState QueueItem)
      → (merge_security w group approvals ci s).0 ≡ ok true
      → IsCleared s.item s.pr
  unfolding merge_security unblock
  merge_security_sound s h =
      elim (require_if-eq-ok (is_empty s.item.security_override)
        (transiently (check_security w group)) block (unblock w group approvals ci) s block-Refuses
        h) [
          | inl (e, k) ↦ record {
            secure = inl e;
            seen = s.pr;
            differs = (s.pr.security_blocked, s.pr.security_alerts, refl);
            decided = merge_decision_sound w group approvals ci _ k;
          }
          | inr (e, m, k) ↦ record {
            secure = inr (check_security_sound w group s (wrap_transient-eq-ok _ m));
            seen = (check_security w group s).1.pr;
            differs = check_security-pr w group s;
            decided = merge_decision_sound w group approvals ci _ k;
          }
        ]

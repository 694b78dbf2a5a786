-- ===== src/Queue/Checker/Ready/Safety.antt =====
-- A yes of `IsReadyToMerge` means that every gate was passed.
use mathlib.Core.Path.{subst}
use asika.Prelude.{
  ◌≡◌, refl, ◌⊎◌, inl, inr, Bool, true, false, not, ◌||◌, Option, none, some, List, Bytes, lit,
  text_eq, text_eq_iff, is_empty, length, Result, ok, fail, panic, arith,
}
use asika.Prelude.Int.{pos, lt_int}
use asika.Models.{RepoGroup, PrRecord, Config}
use asika.Models.Approval.{ApprovalStatus}
use asika.Config.{get_repo_group_by_name}
use asika.Queue.World.{World}
use asika.Queue.Check.{CheckState, lift, pure, require, require_if}
use asika.Queue.Check.Invert.{
  Refuses, >>=-eq-ok, require-eq-ok, require_if-eq-ok, if-eq-ok, and_then-state,
}
use asika.Queue.Checker.Approvals.{fetch_approvals, filter_write_permission, check_ci}
use asika.Queue.Checker.Paths.{ArePathsApproved, check_path_approvals, check_path_approvals_sound}
use asika.Queue.Checker.Gates.{check_pr_size, check_pr_template, check_security}
use asika.Queue.Checker.Gates.Sound.{
  IsSizeOk, check_pr_size_sound, check_pr_size-pr, IsTemplateOk, check_pr_template_sound,
  check_pr_template-pr, IsSecure, check_security_sound, DiffersInAlerts, check_security-pr,
}
use asika.Queue.Checker.Verdict.{needs_ci, has_rules, run_expression}
use asika.Queue.Checker.Ready.{
  ci_passed, expression_verdict, ready_expression, ready_gates, ready_approvals, in_group,
  ready_checks, start, is_ready_to_merge,
}

false-Refuses : Refuses (pure {I = Unit} false)
false-Refuses s h = cc

-- A gate that the group does not ask for, or that the pull request passes.
abbrev Unless : Bool → Type 0 → Type 0
Unless enabled P = (enabled ≡ false) ⊎ P

module _ (w : World) (group : RepoGroup) (approvals : List Bytes) where
  -- The expression, the last check.
  pub record IsExpected (pr : PrRecord) : Type 0 where
    pub secure : IsSecure w pr group
    pub seen : PrRecord
    pub differs : DiffersInAlerts pr seen
    pub expected :
        (is_empty group.merge_queue.expression ≡ true)
        ⊎ (run_expression w seen group approvals (lit "success") ≡ ok true)

  expression_verdict_sound :
      (r : Result Bool) (s : CheckState Unit) → (expression_verdict r s).0 ≡ ok true → r ≡ ok true
  unfolding expression_verdict
  expression_verdict_sound (ok b) s h = h
  expression_verdict_sound (fail e) s h = cc
  expression_verdict_sound panic s h = cc

  security_sound :
      (s : CheckState Unit)
      → (require (check_security w group) (pure false) (ready_expression w group approvals) s).0
        ≡ ok true
      → IsExpected s.pr
  unfolding ready_expression
  security_sound s h =
      let (m, k) =
        require-eq-ok (check_security w group) (pure false) (ready_expression w group approvals) s
          false-Refuses h in
      let after = (check_security w group s).1 in
      record {
        secure = check_security_sound w group s m;
        seen = after.pr;
        differs = check_security-pr w group s;
        expected = elim (if-eq-ok (is_empty group.merge_queue.expression) _ _ after k) [
          | inl (e, _) ↦ inl e
          | inr (_, x) ↦ inr (expression_verdict_sound _ after x)
        ];
      }

  abbrev HasPassedCi : PrRecord → Type 0
  HasPassedCi pr =
      Unless (needs_ci group) ((status : Bytes) × (check_ci w pr group ≡ ok (true, status)))

  ci_passed_sound :
      (s : CheckState Unit)
      → (ci_passed w group s).0 ≡ ok true
      → (status : Bytes) × (check_ci w s.pr group ≡ ok (true, status))
  unfolding ci_passed
  ci_passed_sound s h =
      let (r, e, k) = >>=-eq-ok (lift (check_ci w s.pr group)) _ s h in
      (r.1, subst (λ b. check_ci w s.pr group ≡ ok (b, r.1)) (yes_of r.0 s k) e)
    where
      yes_of : (b : Bool) (s : CheckState Unit) → (pure b s).0 ≡ ok true → b ≡ true
      yes_of b s k = cc

  ci_passed-state : (s : CheckState Unit) → (ci_passed w group s).1 ≡ s
  unfolding ci_passed
  ci_passed-state s = and_then-state (check_ci w s.pr group) _ s (λ r. refl)

  ci_sound :
      (s : CheckState Unit)
      → (require_if
          (needs_ci group)
          (ci_passed w group)
          (pure false)
          (require (check_security w group) (pure false) (ready_expression w group approvals))
          s).0
        ≡ ok true
      → HasPassedCi s.pr × IsExpected s.pr
  ci_sound s h =
      elim (require_if-eq-ok (needs_ci group) (ci_passed w group) _ _ s false-Refuses h) [
        | inl (e, k) ↦ (inl e, security_sound s k)
        | inr (e, m, k) ↦ (
          inr (ci_passed_sound s m),
          subst (λ (s : CheckState Unit). IsExpected s.pr) (ci_passed-state s) (security_sound _ k),
        )
      ]

  -- The last three gates, then with the template, the size and the path rules before them.
  abbrev Last : PrRecord → Type 0
  Last pr = HasPassedCi pr × IsExpected pr

  abbrev Behind : PrRecord → Type 0
  Behind pr = Unless group.pr_template.enabled (IsTemplateOk w pr group) × Last pr

  template_sound :
      (s : CheckState Unit)
      → (require_if group.pr_template.enabled
          (check_pr_template w group)
          (pure false)
          (require_if
            (needs_ci group)
            (ci_passed w group)
            (pure false)
            (require (check_security w group) (pure false) (ready_expression w group approvals)))
          s).0
        ≡ ok true
      → Behind s.pr
  template_sound s h =
      elim (require_if-eq-ok group.pr_template.enabled (check_pr_template w group) _ _ s
        false-Refuses h) [
          | inl (e, k) ↦ (inl e, ci_sound s k)
          | inr (e, m, k) ↦ (
            inr (check_pr_template_sound w group s m),
            subst Last (check_pr_template-pr w group s) (ci_sound _ k),
          )
        ]

  size_sound :
      (s : CheckState Unit)
      → (require_if group.pr_size_limits.enabled
          (check_pr_size w group)
          (pure false)
          (require_if group.pr_template.enabled (check_pr_template w group) (pure false) (
            require_if
              (needs_ci group)
              (ci_passed w group)
              (pure false)
              (require (check_security w group) (pure false) (ready_expression w group approvals))))
          s).0
        ≡ ok true
      → Unless group.pr_size_limits.enabled (IsSizeOk w s.pr group) × Behind s.pr
  size_sound s h =
      elim (require_if-eq-ok group.pr_size_limits.enabled (check_pr_size w group) _ _ s
        false-Refuses h) [
          | inl (e, k) ↦ (inl e, template_sound s k)
          | inr (e, m, k) ↦ (
            inr (check_pr_size_sound w group s m),
            subst Behind (check_pr_size-pr w group s) (template_sound _ k),
          )
        ]

  pub record PassesGates (pr : PrRecord) : Type 0 where
    pub paths : Unless (has_rules group) (ArePathsApproved w pr group approvals)
    pub size : Unless group.pr_size_limits.enabled (IsSizeOk w pr group)
    pub template : Unless group.pr_template.enabled (IsTemplateOk w pr group)
    pub ci : HasPassedCi pr
    pub expected : IsExpected pr

  ready_gates_sound :
      (s : CheckState Unit) → (ready_gates w group approvals s).0 ≡ ok true → PassesGates s.pr
  unfolding ready_gates
  ready_gates_sound s h =
      let (paths, k) = split (
        require_if-eq-ok (has_rules group) (lift (check_path_approvals w s.pr group approvals)) _ _
          s false-Refuses h) in
      let (size, template, ci, expected) = flat (size_sound s k) in
      record { paths = paths; size = size; template = template; ci = ci; expected = expected }
    where
      split :
          {P : Type 0}
          → ((has_rules group ≡ false) × P)
            ⊎ ((has_rules group ≡ true)
                × (check_path_approvals w s.pr group approvals ≡ ok true)
                × P)
          → Unless (has_rules group) (ArePathsApproved w s.pr group approvals) × P
      split (inl (e, k)) = (inl e, k)
      split (inr (e, m, k)) = (inr (check_path_approvals_sound w s.pr group approvals m), k)

      flat : {A B C D : Type 0} → A × (B × (C × D)) → A × B × C × D
      flat (a, (b, (c, d))) = (a, b, c, d)

-- What a yes of `IsReadyToMerge` says of the pull request.
pub record IsReady (w : World) (cfg : Config) (pr : PrRecord) : Type 0 where
  pub is_open : pr.state ≡ lit "open"
  pub not_draft : pr.is_draft ≡ false
  pub conflict_free : pr.has_conflict ≡ false
  pub group : RepoGroup
  pub named : get_repo_group_by_name cfg pr.repo_group ≡ some group
  pub status : ApprovalStatus
  pub fetched : fetch_approvals w pr group ≡ ok status
  pub enough :
      lt_int
        (pos (length (filter_write_permission w pr group status.approvers)))
        group.merge_queue.required_approvals
      ≡ false
  pub gates : PassesGates w group (filter_write_permission w pr group status.approvers) pr

module _ (w : World) (cfg : Config) (pr : PrRecord) where
  in_group_sound :
      (found : Option RepoGroup)
      → pr.state ≡ lit "open"
      → pr.is_draft ≡ false
      → get_repo_group_by_name cfg pr.repo_group ≡ found
      → (in_group w found (start pr)).0 ≡ ok true
      → IsReady w cfg pr
  unfolding in_group ready_approvals
  in_group_sound none is_open not_draft named h = cc
  in_group_sound (some group) is_open not_draft named h =
      elim (if-eq-ok pr.has_conflict _ _ (start pr) h) [
        | inl (_, no_way) ↦ cc
        | inr (free, k) ↦
            let (status, fetched, k') =
              >>=-eq-ok (lift (fetch_approvals w pr group)) _ (start pr) k in
            let approvals = filter_write_permission w pr group status.approvers in
            elim (if-eq-ok (lt_int (pos (length approvals)) group.merge_queue.required_approvals) _
              _ (start pr) k') [
                | inl (_, no_way) ↦ cc
                | inr (enough, k'') ↦ record {
                  is_open = is_open;
                  not_draft = not_draft;
                  conflict_free = free;
                  group = group;
                  named = named;
                  status = status;
                  fetched = fetched;
                  enough = enough;
                  gates = ready_gates_sound w group approvals (start pr) k'';
                }
              ]
      ]

  open_of : (not (text_eq pr.state (lit "open")) || pr.is_draft) ≡ false → pr.state ≡ lit "open"
  open_of h = (text_eq_iff pr.state (lit "open")).0 (ground arith)

  not_draft_of : (not (text_eq pr.state (lit "open")) || pr.is_draft) ≡ false → pr.is_draft ≡ false
  not_draft_of h = ground arith

  -- If `IsReadyToMerge` answers yes, the pull request is open, no draft and free of conflicts, its
  -- group is configured, it has the approvals that the group requires from users that may write,
  -- and it passes the path rules, the size limits, the template, CI and the security scan as far as
  -- the group asks for them, and the merge condition if there is one.
  pub is_ready_to_merge-IsReady : (is_ready_to_merge w cfg (some pr)).0 ≡ ok true → IsReady w cfg pr
  unfolding is_ready_to_merge ready_checks
  is_ready_to_merge-IsReady h =
      elim (if-eq-ok (not (text_eq pr.state (lit "open")) || pr.is_draft) _ _ (start pr) h) [
        | inl (_, no_way) ↦ cc
        | inr (e, k) ↦ in_group_sound _ (open_of e) (not_draft_of e) refl k
      ]

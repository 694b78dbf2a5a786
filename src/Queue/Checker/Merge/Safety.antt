-- ===== src/Queue/Checker/Merge/Safety.antt =====
-- A yes of `ShouldMerge` means that every gate was passed.
use asika.Prelude.{
  ◌≡◌, refl, ◌⊎◌, inl, inr, Bool, true, false, not, ◌&&◌, Option, none, some, List, Bytes, lit,
  is_empty, Result, ok, fail, panic, arith, wrap_transient-eq-ok,
}
use asika.Models.{RepoGroup, PrRecord, Config, QueueItem}
use asika.Models.Approval.{ApprovalStatus}
use asika.Config.{get_repo_group_by_name}
use asika.Queue.World.{World}
use asika.Queue.Check.{CheckState, lift, transiently}
use asika.Queue.Check.Invert.{>>=-eq-ok, if-eq-ok}
use asika.Queue.Checker.Approvals.{fetch_approvals, filter_write_permission, check_ci}
use asika.Queue.Checker.Gates.{try_auto_rebase}
use asika.Queue.Checker.Verdict.{needs_ci}
use asika.Queue.Checker.Merge.{
  merge_ci, merge_approvals, merge_conflict, in_group, merge_checks, should_merge, start,
}
use asika.Queue.Checker.Merge.Decision.{IsCleared, merge_security_sound, answer-Refuses}

-- How the CI status came about: it was not asked for, or it was fetched, and CI that did not pass
-- leaves the decision to a merge condition.
abbrev pub IsCiKnown : World → PrRecord → RepoGroup → Bytes → Type 0
IsCiKnown w pr group ci =
    (needs_ci group ≡ false) × (ci ≡ lit "none")
    ⊎ ((needs_ci group ≡ true)
        × ((passed : Bool) × (check_ci w pr group ≡ ok (passed, ci))
            × ((passed ≡ true) ⊎ (is_empty group.merge_queue.expression ≡ false))))

passed_or : (p e : Bool) → (not p && e) ≡ false → (p ≡ true) ⊎ (e ≡ false)
passed_or p e h = ground arith

module _ (w : World) (group : RepoGroup) where
  merge_ci_sound :
      (approvals : List Bytes) (s : CheckState QueueItem)
      → (merge_ci w group approvals s).0 ≡ ok true
      → (ci : Bytes) × IsCiKnown w s.pr group ci × IsCleared w group approvals ci s.item s.pr
  unfolding merge_ci
  merge_ci_sound approvals s h = elim (if-eq-ok (needs_ci group) _ _ s h) [
    | inr (e, k) ↦
        (lit "none", inl (e, refl), merge_security_sound w group approvals (lit "none") s k)
    | inl (e, k) ↦
        let (r, ran, k') = >>=-eq-ok (transiently (lift (check_ci w s.pr group))) _ s k in
        elim (if-eq-ok (not r.0 && is_empty group.merge_queue.expression) _ _ s k') [
          | inl (stop, no_way) ↦ absurd (answer-Refuses group approvals r.1 s no_way)
          | inr (go, k'') ↦ (
            r.1,
            inr (e, (r.0, wrap_transient-eq-ok _ ran, passed_or r.0 _ go)),
            merge_security_sound w group approvals r.1 s k'',
          )
        ]
  ]

-- What a yes of `ShouldMerge` says of the pull request `pr` that the database holds and of the item.
pub record IsMergeable (w : World) (cfg : Config) (pr : PrRecord) (item : QueueItem) : Type 0 where
  pub not_draft : pr.is_draft ≡ false
  pub group : RepoGroup
  pub named : get_repo_group_by_name cfg pr.repo_group ≡ some group
  -- The record without the conflict, which is `pr` if there was none.
  pub base : PrRecord
  pub conflict_free :
      (pr.has_conflict ≡ false) × (base ≡ pr)
      ⊎ (pr.has_conflict ≡ true)
        × ((try_auto_rebase w pr group ≡ true) × (base ≡ record pr { has_conflict = false }))
  pub status : ApprovalStatus
  pub fetched : fetch_approvals w base group ≡ ok status
  pub ci : Bytes
  pub ci_known : IsCiKnown w base group ci
  pub cleared :
      IsCleared w group (filter_write_permission w base group status.approvers) ci item base

module _ (w : World) (group : RepoGroup) where
  -- What the checks behind the conflict find, for a record that has none.
  record IsChecked (item : QueueItem) (base : PrRecord) : Type 0 where
    status : ApprovalStatus
    fetched : fetch_approvals w base group ≡ ok status
    ci : Bytes
    ci_known : IsCiKnown w base group ci
    cleared : IsCleared w group (filter_write_permission w base group status.approvers) ci item base

  merge_approvals_sound :
      (s : CheckState QueueItem) → (merge_approvals w group s).0 ≡ ok true → IsChecked s.item s.pr
  unfolding merge_approvals
  merge_approvals_sound s h =
      let (status, fetched, k) = >>=-eq-ok (lift (fetch_approvals w s.pr group)) _ s h in
      let (ci, known, cleared) =
        merge_ci_sound w group (filter_write_permission w s.pr group status.approvers) s k in
      record { status = status; fetched = fetched; ci = ci; ci_known = known; cleared = cleared }

  module _ (cfg : Config) (pr : PrRecord) (item : QueueItem) where
    mergeable :
        (base : PrRecord)
        → pr.is_draft ≡ false
        → get_repo_group_by_name cfg pr.repo_group ≡ some group
        → (pr.has_conflict ≡ false) × (base ≡ pr)
          ⊎ (pr.has_conflict ≡ true)
            × ((try_auto_rebase w pr group ≡ true) × (base ≡ record pr { has_conflict = false }))
        → IsChecked item base
        → IsMergeable w cfg pr item
    mergeable base not_draft named conflict_free c = record {
      not_draft = not_draft;
      group = group;
      named = named;
      base = base;
      conflict_free = conflict_free;
      status = c.status;
      fetched = c.fetched;
      ci = c.ci;
      ci_known = c.ci_known;
      cleared = c.cleared;
    }

not-false : (b : Bool) → not b ≡ false → b ≡ true
not-false b h = ground arith

not-true : (b : Bool) → not b ≡ true → b ≡ false
not-true b h = ground arith

module _ (w : World) (cfg : Config) (pr : PrRecord) (item : QueueItem) where
  merge_conflict_sound :
      (group : RepoGroup)
      → pr.is_draft ≡ false
      → get_repo_group_by_name cfg pr.repo_group ≡ some group
      → (merge_conflict w group (start item pr)).0 ≡ ok true
      → IsMergeable w cfg pr item
  unfolding merge_conflict
  merge_conflict_sound group not_draft named h =
      elim (if-eq-ok (not pr.has_conflict) _ _ (start item pr) h) [
        | inl (e, k) ↦
            mergeable w group cfg pr item pr not_draft named (inl (not-true _ e, refl))
              (merge_approvals_sound w group _ k)
        | inr (e, k) ↦ elim (if-eq-ok (try_auto_rebase w pr group) _ _ (start item pr) k) [
          | inl (rebased, k') ↦
              mergeable w group cfg pr item (record pr { has_conflict = false }) not_draft named
                (inr (not-false _ e, (rebased, refl))) (merge_approvals_sound w group _ k')
          | inr (_, no_way) ↦ cc
        ]
      ]

  in_group_sound :
      (found : Option RepoGroup)
      → pr.is_draft ≡ false
      → get_repo_group_by_name cfg pr.repo_group ≡ found
      → (in_group w pr.repo_group found (start item pr)).0 ≡ ok true
      → IsMergeable w cfg pr item
  unfolding in_group
  in_group_sound none not_draft named h = cc
  in_group_sound (some group) not_draft named h = merge_conflict_sound group not_draft named h

  -- If `ShouldMerge` answers yes for the pull request that it loads, the pull request is no draft,
  -- its group is configured, a conflict was removed by a rebase, the approvals were fetched, CI
  -- passed where it is asked for (or a merge condition decides), no security alert is reported
  -- unless the item overrides this, and the merge condition holds or, without one, the count of
  -- approvals, the path rules, the size limits, the template and the CI status are satisfied.
  pub should_merge-IsMergeable :
      (should_merge w cfg (ok pr) item).0 ≡ ok true → IsMergeable w cfg pr item
  unfolding should_merge merge_checks
  should_merge-IsMergeable h = elim (if-eq-ok pr.is_draft _ _ (start item pr) h) [
    | inl (_, no_way) ↦ cc
    | inr (not_draft, k) ↦ in_group_sound _ not_draft refl k
  ]

-- A yes is given only for a pull request that was found.
pub should_merge-eq-yes :
    (w : World) (cfg : Config) (found : Result PrRecord) (item : QueueItem)
    → (should_merge w cfg found item).0 ≡ ok true
    → (pr : PrRecord) × (found ≡ ok pr) × IsMergeable w cfg pr item
unfolding should_merge
should_merge-eq-yes w cfg (ok pr) item h = (pr, refl, should_merge-IsMergeable w cfg pr item h)
should_merge-eq-yes w cfg (fail e) item h = cc
should_merge-eq-yes w cfg panic item h = cc

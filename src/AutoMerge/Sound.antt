-- ===== src/AutoMerge/Sound.antt =====
-- What is merged automatically is what a rule allows.
use asika.Prelude.{
  ◌≡◌, ◌⊎◌, refl, inl, inr, true, false, Option, none, some, Bytes, lit, text_eq_iff, Result, ok,
  fail, panic, arith, Bool-cases, Option-cases,
}
use asika.Prelude.Int.{ℤ, pos, lt_int}
use asika.Models.{Config, PrRecord}
use asika.Models.Rules.{AutoMergeRule}
use asika.Config.{get_repo_group_by_name}
use asika.Queue.World.{World, Client}
use asika.Queue.Store.{PrStore, read_pr}
use asika.AutoMerge.{
  is_in, has_common, has_rule_label, approvals_of, required_by, is_enough, approvals_met, head_of,
  is_passed, find_repo, ci_met, matches_rule,
}

-- The approvals that the database counts are enough, where the rule asks for some.
abbrev pub IsApproved : World → Config → AutoMergeRule → PrRecord → PrStore → Type 0
IsApproved w cfg rule pr store =
    (lt_int (pos 0) rule.required_approvals ≡ false)
    ⊎ ((full : PrRecord) × ((read_pr w pr.id pr.repo_group pr.pr_number store).0
          ≡ ok (some (some full)))
        × (lt_int (pos (approvals_of full))
              (required_by (get_repo_group_by_name cfg pr.repo_group) rule)
            ≡ false))

-- The platform reports success for the head of the branch, where the rule asks for CI.
abbrev pub HasPassed : World → Config → AutoMergeRule → PrRecord → Type 0
HasPassed w cfg rule pr =
    (rule.ci_required ≡ false)
    ⊎ ((client : Client) × (owner : Bytes) × (repo : Bytes) × (find_repo w cfg pr
          ≡ some (client, owner, repo))
        × (client.get_ci_status owner repo (head_of pr.branch_info) ≡ ok (lit "success")))

pub record IsAllowed (w : World) (cfg : Config) (rule : AutoMergeRule) (pr : PrRecord)
    (store : PrStore) : Type 0 where
  pub author : is_in pr.author rule.exclude_authors ≡ false
  pub excluded : has_common rule.exclude_labels pr.labels ≡ false
  pub labeled : has_rule_label rule pr ≡ true
  pub approved : IsApproved w cfg rule pr store
  pub conflict_free : pr.has_conflict ≡ false
  pub passed : HasPassed w cfg rule pr

is_enough_sound :
    (found : Result (Option (Option PrRecord))) (required : ℤ)
    → is_enough found required ≡ true
    → (full : PrRecord) × (found ≡ ok (some (some full)))
      × (lt_int (pos (approvals_of full)) required ≡ false)
unfolding is_enough
is_enough_sound (fail e) required h = cc
is_enough_sound panic required h = cc
is_enough_sound (ok none) required h = cc
is_enough_sound (ok (some none)) required h = cc
is_enough_sound (ok (some (some full))) required h = (full, refl, ground (arith, h))

approvals_met_sound :
    (w : World) (cfg : Config) (rule : AutoMergeRule) (pr : PrRecord) (st : PrStore)
    → (approvals_met w cfg rule pr st).0 ≡ true
    → IsApproved w cfg rule pr st
unfolding approvals_met
approvals_met_sound w cfg rule pr st h =
    elim (Bool-cases (lt_int (pos 0) rule.required_approvals)) [
      | inr k ↦ inl k
      | inl k ↦ inr (is_enough_sound _ _ (rw (k, approvals_met) at h))
    ]

is_passed_sound : (r : Result Bytes) → is_passed r ≡ ok true → r ≡ ok (lit "success")
unfolding is_passed
is_passed_sound (ok status) h = ground (arith, h, text_eq_iff status (lit "success"))
is_passed_sound (fail e) h = cc
is_passed_sound panic h = cc

ci_met_sound :
    (w : World) (cfg : Config) (rule : AutoMergeRule) (pr : PrRecord)
    → ci_met w cfg rule pr ≡ ok true
    → HasPassed w cfg rule pr
unfolding ci_met
ci_met_sound w cfg rule pr h = elim (Bool-cases rule.ci_required) [
  | inr k ↦ inl k
  | inl k ↦ elim (Option-cases (find_repo w cfg pr)) [
    | inl l ↦ ground (arith, h, k, l)
    | inr ((client, owner, repo), l) ↦
        inr (client, owner, repo, l, is_passed_sound _ (rw (k, l, ci_met) at h))
  ]
]

pub matches_rule_sound :
    (w : World) (cfg : Config) (rule : AutoMergeRule) (pr : PrRecord) (st : PrStore)
    → (matches_rule w cfg rule pr st).0 ≡ ok true
    → IsAllowed w cfg rule pr st
unfolding matches_rule
matches_rule_sound w cfg rule pr st h = record {
  author = ground (arith, h);
  excluded = ground (arith, h);
  labeled = ground (arith, h);
  approved = approvals_met_sound w cfg rule pr st (ground (arith, h));
  conflict_free = ground (arith, h);
  passed = ci_met_sound w cfg rule pr (ground (arith, h));
}

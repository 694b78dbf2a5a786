-- ===== src/Queue/Checker/Paths.antt =====
-- `checkPathApprovals` of checker.go: approval rules for files. The matcher's cache is transparent
-- (`Pattern`), so the rules are matched without it.
use asika.Prelude.{
  ◌≡◌, Bool, true, false, not, ◌&&◌, ◌||◌, List, [], ◌∷◌, Bytes, lit, text_eq, All, any, count,
  Result, ok, ◌>>=◌, >>=-eq-ok, prefix_error, prefix_error-eq-ok, arith, if◌then◌else◌,
}
use asika.Prelude.Int.{ℤ, pos, lt_int}
use asika.Models.{RepoGroup, PrRecord, ApprovalRule}
use asika.Queue.World.{World, Client}
use asika.Queue.Checker.Approvals.{resolve_repo}
use asika.Queue.Checker.Pattern.{match_pattern}

-- A lookup in a map that was filled from the list.
abbrev pub mem : List Bytes → Bytes → Bool
mem xs a = any (text_eq a) xs

-- `minCount`, with its default of 1.
unfoldable pub min_count : ApprovalRule → ℤ
min_count rule = if lt_int (pos 0) rule.min_count then rule.min_count else pos 1

-- One rule of the loop: no changed file matches it, or enough of its approvers approved.
unfoldable pub rule_met : World → List Bytes → List Bytes → ApprovalRule → Bool
rule_met w files approvals rule =
    not (any (match_pattern w rule.pattern) files)
    || not (lt_int (pos (count (mem approvals) rule.approvers)) (min_count rule))

unfoldable pub rules_met : World → List Bytes → List Bytes → List ApprovalRule → Bool
unfolding rule_met
rules_met w files approvals [] = true
rules_met w files approvals (rule ∷ rules) =
    rule_met w files approvals rule && rules_met w files approvals rules

unfoldable pub check_path_approvals : World → PrRecord → RepoGroup → List Bytes → Result Bool
check_path_approvals w pr group approvals = do
  (client, owner, repo) ← resolve_repo w pr group []
  files ←
      prefix_error (lit "failed to get diff files: ")
        (client.get_diff_files owner repo pr.pr_number)
  ok (rules_met w files approvals group.approval_rules)

-- If a changed file matches the rule, enough of its approvers approved.
abbrev pub IsMet : World → List Bytes → List Bytes → ApprovalRule → Type 0
IsMet w files approvals rule =
    any (match_pattern w rule.pattern) files ≡ true
    → lt_int (pos (count (mem approvals) rule.approvers)) (min_count rule) ≡ false

pub record ArePathsApproved (w : World) (pr : PrRecord) (group : RepoGroup) (approvals : List Bytes)
    : Type 0 where
  pub repo : Client × Bytes × Bytes
  pub resolved : resolve_repo w pr group [] ≡ ok repo
  pub files : List Bytes
  pub fetched : repo.0.get_diff_files repo.1 repo.2 pr.pr_number ≡ ok files
  pub met : All (IsMet w files approvals) group.approval_rules

not-or : (a b : Bool) → (not a || not b) ≡ true → a ≡ true → b ≡ false
not-or a b h e = ground arith

and-left : (a b : Bool) → (a && b) ≡ true → a ≡ true
and-left a b h = ground arith

and-right : (a b : Bool) → (a && b) ≡ true → b ≡ true
and-right a b h = ground arith

rules_met-All :
    (w : World) (files approvals : List Bytes) (rules : List ApprovalRule)
    → rules_met w files approvals rules ≡ true
    → All (IsMet w files approvals) rules
unfolding rules_met
rules_met-All w files approvals [] h = tt
rules_met-All w files approvals (rule ∷ rules) h = (
  not-or _ _ (and-left _ (rules_met w files approvals rules) h),
  rules_met-All w files approvals rules (and-right (rule_met w files approvals rule) _ h),
)

ok_inj : {a b : Bool} → ◌≡◌ {A = Result Bool} (ok a) (ok b) → a ≡ b
ok_inj h = cc

-- The path rules pass only if every rule is met on the files that the platform reports.
pub check_path_approvals_sound :
    (w : World) (pr : PrRecord) (group : RepoGroup) (approvals : List Bytes)
    → check_path_approvals w pr group approvals ≡ ok true
    → ArePathsApproved w pr group approvals
unfolding check_path_approvals
check_path_approvals_sound w pr group approvals h =
    let (r, resolved, rest) = >>=-eq-ok (resolve_repo w pr group []) _ h in
    let (files, fetched, met) =
      >>=-eq-ok
        (prefix_error (lit "failed to get diff files: ") (r.0.get_diff_files r.1 r.2 pr.pr_number))
        _ rest in
    record {
      repo = r;
      resolved = resolved;
      files = files;
      fetched = prefix_error-eq-ok _ _ fetched;
      met = rules_met-All w files approvals group.approval_rules (ok_inj met);
    }

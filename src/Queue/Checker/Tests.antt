-- ===== src/Queue/Checker/Tests.antt =====
-- Runs of the parts of the checks.
use mathlib.Core.Path.{subst}
use asika.Prelude.{
  ◌<◌, ◌++◌, ℕ, ◌≡◌, refl, true, ok, [], ◌∷◌, lit, text_eq, plain, arith, contains, error_text,
  has_prefix, Bytes,
}
use asika.Db.{keys, lookup}
use asika.Config.{get_owner_repo_from_group}
use asika.Queue.World.{Client}
use asika.Queue.Samples.{world, approvals, group, config, pull, item}
use asika.Queue.Checker.Approvals.{
  transient_texts, is_transient_error, fetch_from, fetch_approvals, resolve_repo,
}
use asika.Queue.Checker.Approvals.Retry.{
  HasFailed, IsAnswered, fetch_approvals-IsAnswered, fetch_from-retries,
}
use asika.Queue.Checker.Pattern.{
  match_single_pattern, match_pattern, IsCoherent, match_single_pattern_lem, has_glob,
  matches_regex,
}
use asika.Queue.Checker.Paths.{
  check_path_approvals, rules_met, rule_met, min_count, ArePathsApproved,
  check_path_approvals_sound,
}
use asika.Queue.Checker.Merge.{should_merge}
use asika.Queue.Checker.Merge.Identity.{identity, should_merge-identity}

should_merge-identity_example :
    identity (should_merge world config (ok pull) item).1 ≡ identity item
should_merge-identity_example = should_merge-identity world config (ok pull) item

no_cache : IsCoherent world (λ c. keys c) []
unfolding lookup
no_cache k re h = cc

match_single_pattern_lem_example :
    ((match_single_pattern world (λ c. keys c) [] (lit "docs/*") (lit "docs/a")).0
      ≡ match_pattern world (lit "docs/*") (lit "docs/a"))
    × IsCoherent world
        (λ c. keys c)
        (match_single_pattern world (λ c. keys c) [] (lit "docs/*") (lit "docs/a")).1
match_single_pattern_lem_example =
    match_single_pattern_lem world (λ c. keys c) [] (lit "docs/*") (lit "docs/a") no_cache

paths_pass : check_path_approvals world pull group (lit "bob" ∷ []) ≡ ok true
unfolding check_path_approvals resolve_repo rules_met rule_met min_count match_pattern has_glob
    matches_regex text_eq lit get_owner_repo_from_group
paths_pass = refl

check_path_approvals_sound_example : ArePathsApproved world pull group (lit "bob" ∷ [])
check_path_approvals_sound_example =
    check_path_approvals_sound world pull group (lit "bob" ∷ []) paths_pass

only_zero : (i : ℕ) → i < 1 → 0 ≡ i
only_zero i u = omega (arith, u)

answered :
    fetch_approvals world pull group
    ≡ ok (record { approvers = lit "bob" ∷ lit "eve" ∷ []; blockers = [] })
unfolding fetch_approvals resolve_repo fetch_from is_transient_error transient_texts contains
    has_prefix error_text lit get_owner_repo_from_group text_eq
answered = refl

-- The second attempt answers.
second_answers :
    IsAnswered approvals 0 3 (record { approvers = lit "bob" ∷ lit "eve" ∷ []; blockers = [] })
unfolding is_transient_error transient_texts contains has_prefix error_text lit
second_answers = record {
  j = 1;
  from-lem = omega arith;
  left-lem = omega arith;
  get-lem = refl;
  failed-lem = λ i l u.
      subst (λ n. HasFailed (approvals n)) (only_zero i u) (plain (lit "timeout"), refl, refl);
}

fetch_from-retries_example :
    fetch_from approvals 3 0 (plain [])
    ≡ ok (record { approvers = lit "bob" ∷ lit "eve" ∷ []; blockers = [] })
fetch_from-retries_example = fetch_from-retries approvals 3 0 (plain []) _ second_answers

fetch_approvals-IsAnswered_example :
    (r : Client × Bytes × Bytes) × (resolve_repo world pull group (lit " in group " ++ group.name)
      ≡ ok r)
    × IsAnswered
        (λ attempt. r.0.get_approvals attempt r.1 r.2 pull.pr_number)
        0
        3
        (record { approvers = lit "bob" ∷ lit "eve" ∷ []; blockers = [] })
fetch_approvals-IsAnswered_example = fetch_approvals-IsAnswered world pull group _ answered

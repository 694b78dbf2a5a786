-- ===== src/AutoMerge.antt =====
-- daemon/automerge/evaluator.go: pull requests that are merged by rules.
pub mod Sound
pub mod Placed
pub mod Merges
pub mod Once
pub mod Tests
use asika.Prelude.{
  ℕ, suc, Bool, true, false, not, ◌&&◌, ◌||◌, Option, none, some, List, [], ◌∷◌, ◌++◌, Bytes, lit,
  text_eq, is_empty, any, Result, ok, fail, panic, Err, count, if◌then◌else◌,
}
use asika.Prelude.Int.{ℤ, pos, lt_int}
use asika.Models.{Config, RepoGroup, PrRecord, PrBranchInfo, PrEvent}
use asika.Models.Rules.{AutoMergeRule}
use asika.Config.{
  get_repo_group_by_name, get_owner_repo_from_group, get_repo_groups, group_platforms,
}
use asika.Queue.World.{World, Client}
use asika.Queue.Store.{PrStore, Merged, read_pr}

pub record AutoState : Type 0 where
  pub store : PrStore
  -- The merges that the platforms took, oldest first.
  pub merges : List Merged

-- Whether the evaluation goes on, with the state: `false` is a run-time panic of a call.
abbrev pub Done : Type 0
Done = Bool × AutoState

pub is_in : Bytes → List Bytes → Bool
is_in text [] = false
is_in text (t ∷ ts) = text_eq text t || is_in text ts

-- One of the first texts is among the second.
pub has_common : List Bytes → List Bytes → Bool
unfolding is_in
has_common [] labels = false
has_common (t ∷ ts) labels = is_in t labels || has_common ts labels

pub has_rule_label : AutoMergeRule → PrRecord → Bool
unfolding has_common
has_rule_label rule pr = elim rule.labels [ [] ↦ true | t ∷ ts ↦ has_common (t ∷ ts) pr.labels ]

pub approvals_of : PrRecord → ℕ
approvals_of pr = count (λ (e : PrEvent). text_eq e.action (lit "approved")) pr.events

-- The larger of the two counts.
pub required_by : Option RepoGroup → AutoMergeRule → ℤ
required_by none rule = rule.required_approvals
required_by (some group) rule =
    if lt_int rule.required_approvals group.merge_queue.required_approvals
    then group.merge_queue.required_approvals
    else rule.required_approvals

pub is_enough : Result (Option (Option PrRecord)) → ℤ → Bool
unfolding approvals_of
is_enough (ok (some (some full))) required = not (lt_int (pos (approvals_of full)) required)
is_enough _ required = false

pub approvals_met : World → Config → AutoMergeRule → PrRecord → PrStore → Bool × PrStore
unfolding is_enough required_by
approvals_met w cfg rule pr st =
    if lt_int (pos 0) rule.required_approvals
    then (let (found, st') = read_pr w pr.id pr.repo_group pr.pr_number st in
        (is_enough found (required_by (get_repo_group_by_name cfg pr.repo_group) rule), st'))
    else (true, st)

-- `commitSHA`
pub head_of : Option PrBranchInfo → Bytes
head_of none = []
head_of (some info) = info.head_sha

unfoldable pub is_passed : Result Bytes → Result Bool
is_passed (ok status) = ok (text_eq status (lit "success"))
is_passed (fail e) = ok false
is_passed panic = panic

-- Group, client, owner and repository.
unfoldable pub find_repo : World → Config → PrRecord → Option (Client × Bytes × Bytes)
find_repo w cfg pr = elim (get_repo_group_by_name cfg pr.repo_group) [
  | none ↦ none
  | some group ↦ elim (w.clients pr.platform) [
    | none ↦ none
    | some client ↦
        let (owner, repo) = get_owner_repo_from_group group pr.platform in
        if is_empty owner || is_empty repo then none else some (client, owner, repo)
  ]
]

pub ci_met : World → Config → AutoMergeRule → PrRecord → Result Bool
unfolding head_of is_passed find_repo
ci_met w cfg rule pr =
    if rule.ci_required
    then elim (find_repo w cfg pr) [
      | none ↦ ok false
      | some (client, owner, repo) ↦
          is_passed (client.get_ci_status owner repo (head_of pr.branch_info))
    ]
    else ok true

pub matches_rule : World → Config → AutoMergeRule → PrRecord → PrStore → Result Bool × PrStore
unfolding approvals_met ci_met is_in has_common has_rule_label
matches_rule w cfg rule pr st =
    if is_in pr.author rule.exclude_authors
    then (ok false, st)
    else if has_common rule.exclude_labels pr.labels
    then (ok false, st)
    else if not (has_rule_label rule pr)
    then (ok false, st)
    else (let (enough, st') = approvals_met w cfg rule pr st in
        if not enough
        then (ok false, st')
        else if pr.has_conflict
        then (ok false, st')
        else (ci_met w cfg rule pr, st'))

pub method_or_merge : Result Bytes → Bytes
method_or_merge (ok method) = method
method_or_merge _ = lit "merge"

pub merged_as : PrRecord → Bytes → Bytes → Bytes → Merged
merged_as pr owner repo method = record {
  platform = pr.platform;
  owner = owner;
  repo = repo;
  number = pr.pr_number;
  method = method;
}

pub merge_by : PrRecord → Client → Bytes → Bytes → Bytes → AutoState → AutoState
unfolding merged_as
merge_by pr client owner repo method st = elim (client.merge_pr owner repo pr.pr_number method) [
  | some e ↦ st
  | none ↦ record st { merges = st.merges ++ merged_as pr owner repo method ∷ [] }
]

pub merge_pr : World → Config → PrRecord → AutoState → Done
unfolding find_repo method_or_merge merge_by
merge_pr w cfg pr st = elim (find_repo w cfg pr) [
  | none ↦ (true, st)
  | some (client, owner, repo) ↦ elim (client.get_default_merge_method owner repo) [
    | ok method ↦ (true, merge_by pr client owner repo method st)
    | fail e ↦ (true, merge_by pr client owner repo (lit "merge") st)
    | panic ↦ (false, st)
  ]
]

-- The rule is tried on the pull request: what it says, and the state behind a merge.
pub try_rule : World → Config → AutoMergeRule → PrRecord → AutoState → Result Bool × AutoState
unfolding matches_rule
try_rule w cfg rule pr st =
    let (r, store) = matches_rule w cfg rule pr st.store in (r, record st { store = store })

pub merge_if : World → Config → PrRecord → Result Bool × AutoState → Done
unfolding merge_pr
merge_if w cfg pr (ok true, st) = merge_pr w cfg pr st
merge_if w cfg pr (panic, st) = (false, st)
merge_if w cfg pr (_, st) = (true, st)

-- The first enabled rule that matches merges, and no other is tried.
pub first_rule : World → Config → PrRecord → List AutoMergeRule → AutoState → Done
unfolding try_rule merge_if
first_rule w cfg pr [] st = (true, st)
first_rule w cfg pr (rule ∷ rules) st = elim rule.enabled [
  | false ↦ first_rule w cfg pr rules st
  | true ↦
      let (r, st') = try_rule w cfg rule pr st in
      elim r [
        | ok b ↦ elim b [ true ↦ merge_pr w cfg pr st' | false ↦ first_rule w cfg pr rules st' ]
        | fail e ↦ first_rule w cfg pr rules st'
        | panic ↦ (false, st')
      ]
]

pub is_closed : PrRecord → Bool
is_closed pr = not (text_eq pr.state (lit "open")) || (pr.is_draft || pr.spam_flag)

pub evaluate_pr : World → Config → Option PrRecord → AutoState → Done
unfolding first_rule is_closed
evaluate_pr w cfg none st = (true, st)
evaluate_pr w cfg (some pr) st =
    if not cfg.auto_merge.enabled || is_closed pr
    then (true, st)
    else first_rule w cfg pr cfg.auto_merge.rules st

-- A loop over a list, which a panic ends.
pub each {ℓ} : {A : Type ℓ} → (A → AutoState → Done) → List A → AutoState → Done
each f [] st = (true, st)
each f (x ∷ xs) st =
    let (running, st') = f x st in elim running [ true ↦ each f xs st' | false ↦ (false, st') ]

-- In the loops the platforms answer by what has been done so far; the world of one pull request's
-- turn is fixed.
pub evaluate_listed :
    (AutoState → World) → Config → AutoMergeRule → Option PrRecord → AutoState → Done
unfolding try_rule merge_if
evaluate_listed ws cfg rule none st = (true, st)
evaluate_listed ws cfg rule (some pr) st =
    if pr.is_draft || pr.spam_flag
    then (true, st)
    else merge_if (ws st) cfg pr (try_rule (ws st) cfg rule pr st)

pub evaluate_list :
    (AutoState → World)
    → Config
    → AutoMergeRule
    → Result (List (Option PrRecord))
    → AutoState
    → Done
unfolding each evaluate_listed
evaluate_list ws cfg rule (ok prs) st = each (evaluate_listed ws cfg rule) prs st
evaluate_list ws cfg rule (fail e) st = (true, st)
evaluate_list ws cfg rule panic st = (false, st)

pub evaluate_platform :
    (AutoState → World) → Config → RepoGroup → AutoMergeRule → Bytes → AutoState → Done
unfolding evaluate_list
evaluate_platform ws cfg group rule platform st = elim ((ws st).clients platform) [
  | none ↦ (true, st)
  | some client ↦
      let (owner, repo) = get_owner_repo_from_group group platform in
      if is_empty owner || is_empty repo
      then (true, st)
      else evaluate_list ws cfg rule (client.list_prs owner repo) st
]

pub evaluate_rule : (AutoState → World) → Config → RepoGroup → AutoMergeRule → AutoState → Done
unfolding each evaluate_platform
evaluate_rule ws cfg group rule st =
    if rule.enabled
    then each (evaluate_platform ws cfg group rule) (group_platforms group) st
    else (true, st)

pub evaluate_group : (AutoState → World) → Config → RepoGroup → AutoState → Done
unfolding each evaluate_rule
evaluate_group ws cfg group st = each (evaluate_rule ws cfg group) cfg.auto_merge.rules st

pub evaluate_all : (AutoState → World) → Config → AutoState → Done
unfolding each evaluate_group
evaluate_all ws cfg st =
    if cfg.auto_merge.enabled
    then each (evaluate_group ws cfg) (get_repo_groups cfg) st
    else (true, st)

-- ===== src/Labeler.antt =====
-- daemon/labeler/labeler.go: labels by rules on files, title and author.
pub mod Patterns
pub mod Rules
pub mod Tests
use asika.Prelude.{
  ℕ, ◌+◌, Bool, true, false, not, ◌&&◌, ◌||◌, Option, none, some, List, [], ◌∷◌, ◌++◌, Bytes, lit,
  text_eq, is_empty, to_lower, ltb, take, drop, Result, ok, fail, panic, Err, if◌then◌else◌,
}
use asika.Models.{Config, RepoGroup, PrRecord}
use asika.Models.Rules.{LabelCondition, LabelRule}
use asika.Config.{get_repo_group_by_name, get_owner_repo_from_group}
use asika.Queue.Expr.Scan.{index}
use asika.Queue.World.{World, Client}
use asika.Labeler.Patterns.{Cache, match_single_pattern}

-- What a pattern is matched against.
pub record Target : Type 0 where
  pub files : List Bytes
  pub title : Bytes
  pub author : Bytes

-- An event `EventPRLabeled` behind an `AddLabel` that the platform took.
pub record Labeled : Type 0 where
  pub owner : Bytes
  pub repo : Bytes
  pub number : ℕ
  pub label : Bytes
  pub color : Bytes

-- The package variable with the compiled patterns, and what was published, oldest first.
pub record LabelState : Type 0 where
  pub cache : Cache
  pub labeled : List Labeled

pub match_targets : World → Cache → Bytes → List Bytes → Bool × Cache
match_targets w cache pattern [] = (false, cache)
match_targets w cache pattern (target ∷ targets) =
    let (matched, cache') = match_single_pattern w cache pattern target in
    elim matched [ true ↦ (true, cache') | false ↦ match_targets w cache' pattern targets ]

pub targets_in : Bytes → Target → List Bytes
targets_in scope t =
    if text_eq scope (lit "title")
    then t.title ∷ []
    else if text_eq scope (lit "author")
    then t.author ∷ []
    else t.files

pub is_scope : Bytes → Bool
is_scope prefix =
    text_eq prefix (lit "title") || text_eq prefix (lit "author") || text_eq prefix (lit "file")

-- The scope and the pattern behind it.
pub split_scope : Bytes → Bytes × Bytes
unfolding is_scope
split_scope pattern = elim (index pattern (lit ":")) [
  | none ↦ (lit "file", pattern)
  | some i ↦
      if ltb 0 i && ltb i 10 && is_scope (to_lower (take i pattern))
      then (to_lower (take i pattern), drop (i + 1) pattern)
      else (lit "file", pattern)
]

pub match_rule : World → Cache → Bytes → Target → Bool × Cache
unfolding match_targets targets_in split_scope
match_rule w cache pattern t =
    let (scope, pat) = split_scope pattern in match_targets w cache pat (targets_in scope t)

pub match_conditions : World → Cache → List LabelCondition → Target → List Bool × Cache
unfolding match_rule
match_conditions w cache [] t = ([], cache)
match_conditions w cache (c ∷ cs) t =
    let (result, cache') = match_rule w cache c.pattern t in
    let (results, cache'') = match_conditions w cache' cs t in (result ∷ results, cache'')

pub any_true : List Bool → Bool
any_true [] = false
any_true (r ∷ rs) = r || any_true rs

pub all_true : List Bool → Bool
all_true [] = true
all_true (r ∷ rs) = r && all_true rs

pub combine : Bytes → List Bool → Bool
unfolding any_true all_true
combine logic results =
    if text_eq (to_lower logic) (lit "or") then any_true results else all_true results

pub match_simple : World → Cache → Bytes → Target → Bool × Cache
unfolding match_rule
match_simple w cache pattern t =
    if is_empty pattern then (false, cache) else match_rule w cache pattern t

pub match_by : World → Cache → List LabelCondition → LabelRule → Target → Bool × Cache
unfolding match_conditions combine match_simple
match_by w cache [] rule t = match_simple w cache rule.pattern t
match_by w cache (c ∷ cs) rule t =
    let (results, cache') = match_conditions w cache (c ∷ cs) t in
    (combine rule.logic results, cache')

pub match_compound_rule : World → Cache → LabelRule → Target → Bool × Cache
unfolding match_by
match_compound_rule w cache rule t = match_by w cache rule.conditions rule t

pub merge_rules : List LabelRule → List LabelRule → List LabelRule
merge_rules global group = group ++ global

pub color_of : LabelRule → Bytes
color_of rule = if is_empty rule.color then lit "ededed" else rule.color

pub labeled_by : LabelRule → Bytes → Bytes → ℕ → Labeled
unfolding color_of
labeled_by rule owner repo number = record {
  owner = owner;
  repo = repo;
  number = number;
  label = rule.label;
  color = color_of rule;
}

-- The loop over the rules: an error of the platform goes on with the next rule.
module _ (w : World) (client : Client) (owner repo : Bytes) (number : ℕ) (t : Target) where
  pub run_rules : List LabelRule → LabelState → LabelState
  unfolding match_compound_rule labeled_by color_of
  run_rules [] st = st
  run_rules (rule ∷ rules) st =
      let (matched, cache) = match_compound_rule w st.cache rule t in
      elim matched [
        | false ↦ run_rules rules (record st { cache = cache })
        | true ↦ elim (client.add_label owner repo number rule.label (color_of rule)) [
          | some e ↦ run_rules rules (record st { cache = cache })
          | none ↦
              let st' : LabelState = record {
                cache = cache;
                labeled = st.labeled ++ labeled_by rule owner repo number ∷ [];
              } in
              elim rule.exclusive [ true ↦ st' | false ↦ run_rules rules st' ]
        ]
      ]

-- `sort.Slice` by priority is not stable, so the order is a parameter.
abbrev pub Sort : Type 0
Sort = List LabelRule → List LabelRule

-- The client, the owner and the repository, where all of them are known.
pub find_target : World → Config → PrRecord → Bytes → Option (RepoGroup × Client × Bytes × Bytes)
find_target w cfg pr name = elim (w.clients pr.platform) [
  | none ↦ none
  | some client ↦ elim (get_repo_group_by_name cfg name) [
    | none ↦ none
    | some group ↦
        let (owner, repo) = get_owner_repo_from_group group pr.platform in
        if is_empty owner || is_empty repo then none else some (group, client, owner, repo)
  ]
]

pub label_files :
    World
    → Sort
    → Config
    → PrRecord
    → RepoGroup
    → Client
    → Bytes
    → Bytes
    → List Bytes
    → LabelState
    → LabelState
unfolding run_rules merge_rules
label_files w sort cfg pr group client owner repo files st =
    run_rules w client owner repo pr.pr_number
      (record { files = files; title = pr.title; author = pr.author })
      (sort (merge_rules cfg.label_rules group.label_rules)) st

-- `none` is no configuration.
pub apply_rules :
    World → Sort → Option Config → PrRecord → Bytes → List Bytes → LabelState → LabelState
unfolding find_target label_files
apply_rules w sort none pr name files st = st
apply_rules w sort (some cfg) pr name files st = elim (find_target w cfg pr name) [
  | none ↦ st
  | some (group, client, owner, repo) ↦ label_files w sort cfg pr group client owner repo files st
]

-- A run-time panic of the call leaves the state as it is.
pub handle_pr_opened : World → Sort → Option Config → PrRecord → Bytes → LabelState → LabelState
unfolding find_target label_files
handle_pr_opened w sort none pr name st = st
handle_pr_opened w sort (some cfg) pr name st = elim (find_target w cfg pr name) [
  | none ↦ st
  | some (group, client, owner, repo) ↦ elim (client.get_diff_files owner repo pr.pr_number) [
    | ok files ↦ label_files w sort cfg pr group client owner repo files st
    | fail e ↦ st
    | panic ↦ st
  ]
]

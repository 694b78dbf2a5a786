-- ===== src/Labeler/Rules.antt =====
-- The labels that a pull request gets, described without the cache.
use asika.Prelude.{
  ℕ, ◌≤◌, ◌≡◌, length, refl, sym, ap, ◌∙◌, inl, inr, Bool, true, false, not, ◌&&◌, Option, none,
  some, List, [], ◌∷◌, ◌++◌, Bytes, is_empty, any, Result, ok, panic, if◌then◌else◌, arith,
  Bool-cases, Option-cases, Result-cases,
}
use mathlib.Core.List.{append-nil, append_assoc}
use asika.Models.{Config, RepoGroup, PrRecord}
use asika.Db.{lookup}
use asika.Models.Rules.{LabelCondition, LabelRule}
use asika.Queue.World.{World, Client}
use asika.Queue.Checker.Pattern.{match_pattern}
use asika.Labeler.Patterns.{
  Cache, max_compiled_patterns, IsSound, match_single_pattern, match_single_pattern-IsSound,
}
use asika.Labeler.{
  Target, Labeled, LabelState, match_targets, targets_in, split_scope, match_rule, match_conditions,
  combine, match_simple, match_by, match_compound_rule, color_of, labeled_by, run_rules, Sort,
  merge_rules, find_target, label_files, handle_pr_opened,
}

module _ (w : World) (t : Target) where
  pub is_hit : Bytes → Bool
  is_hit pattern =
      let (scope, pat) = split_scope pattern in any (match_pattern w pat) (targets_in scope t)

  pub hits : List LabelCondition → List Bool
  hits [] = []
  hits (c ∷ cs) = is_hit c.pattern ∷ hits cs

  pub applies_by : List LabelCondition → LabelRule → Bool
  applies_by [] rule = not (is_empty rule.pattern) && is_hit rule.pattern
  applies_by (c ∷ cs) rule = combine rule.logic (hits (c ∷ cs))

  -- One of the conditions or all of them, or the pattern if there are none.
  pub applies : LabelRule → Bool
  applies rule = applies_by rule.conditions rule

  -- The rules that apply and whose label the platform takes, up to the first exclusive one.
  pub chosen : Client → Bytes → Bytes → ℕ → List LabelRule → List Labeled
  chosen client owner repo number [] = []
  chosen client owner repo number (rule ∷ rules) =
      let rest = chosen client owner repo number rules in
      let label = labeled_by rule owner repo number in
      if applies rule
      then elim (client.add_label owner repo number rule.label (color_of rule)) [
        | some e ↦ rest
        | none ↦ label ∷ (if rule.exclusive then [] else rest)
      ]
      else rest

  -- The answer is `b`, and the cache stays sound.
  Gives : {A : Type 0} → A → A × Cache → Type 0
  Gives b (answer, cache) = (answer ≡ b) × IsSound w cache

  match_targets_lem :
      (cache : Cache) (pattern : Bytes) (targets : List Bytes)
      → IsSound w cache
      → Gives (any (match_pattern w pattern) targets) (match_targets w cache pattern targets)
  unfolding match_targets Gives
  match_targets_lem cache pattern [] h = (refl, h)
  match_targets_lem cache pattern (target ∷ targets) h =
      let (e, s) = match_single_pattern-IsSound w cache pattern target h in
      elim (Bool-cases (match_single_pattern w cache pattern target).0) [
        | inl k ↦ rw (k, sym e ∙ k, match_targets, Gives) (refl, s)
        | inr k ↦
            rw (k, sym e ∙ k, match_targets, Gives)
              (match_targets_lem (match_single_pattern w cache pattern target).1 pattern targets s)
      ]

  match_rule_lem :
      (cache : Cache) (pattern : Bytes)
      → IsSound w cache
      → Gives (is_hit pattern) (match_rule w cache pattern t)
  unfolding match_rule is_hit
  match_rule_lem cache pattern h =
      match_targets_lem cache (split_scope pattern).1 (targets_in (split_scope pattern).0 t) h

  match_conditions_lem :
      (cache : Cache) (cs : List LabelCondition)
      → IsSound w cache
      → Gives (hits cs) (match_conditions w cache cs t)
  unfolding match_conditions hits Gives
  match_conditions_lem cache [] h = (refl, h)
  match_conditions_lem cache (c ∷ cs) h =
      let (e, s) = match_rule_lem cache c.pattern h in
      let (e', s') = match_conditions_lem (match_rule w cache c.pattern t).1 cs s in
      (rw (e, e') refl, s')

  match_by_lem :
      (cache : Cache) (cs : List LabelCondition) (rule : LabelRule)
      → IsSound w cache
      → Gives (applies_by cs rule) (match_by w cache cs rule t)
  unfolding match_by applies_by match_simple Gives
  match_by_lem cache [] rule h = elim (Bool-cases (is_empty rule.pattern)) [
    | inl k ↦ rw (k, match_by, Gives) (refl, h)
    | inr k ↦ rw (k, match_by, Gives) (match_rule_lem cache rule.pattern h)
  ]
  match_by_lem cache (c ∷ cs) rule h =
      let (e, s) = match_conditions_lem cache (c ∷ cs) h in (ap (combine rule.logic) e, s)

  Labels : LabelState → List Labeled → LabelState → Type 0
  Labels st new after = (after.labeled ≡ st.labeled ++ new) × IsSound w after.cache

  -- Behind a label that was set.
  stop_or_go :
      (exclusive : Bool) (label : Labeled) (st : LabelState) (go : LabelState → LabelState)
      (new : List Labeled) (cache : Cache)
      → IsSound w cache
      → ((st' : LabelState) → IsSound w st'.cache → Labels st' new (go st'))
      → Labels st (label ∷ (if exclusive then [] else new)) (
          let st' : LabelState = record { cache = cache; labeled = st.labeled ++ label ∷ [] } in
          elim exclusive [ true ↦ st' | false ↦ go st' ])
  unfolding Labels
  stop_or_go true label st go new cache h step = (refl, h)
  stop_or_go false label st go new cache h step =
      let st' : LabelState = record { cache = cache; labeled = st.labeled ++ label ∷ [] } in
      let (e, s) = step st' h in (e ∙ append_assoc st.labeled (label ∷ []) new, s)

  run_rules_lem :
      (client : Client) (owner repo : Bytes) (number : ℕ) (rules : List LabelRule) (st : LabelState)
      → IsSound w st.cache
      → Labels st
          (chosen client owner repo number rules)
          (run_rules w client owner repo number t rules st)
  unfolding run_rules chosen Labels Gives match_compound_rule applies
  run_rules_lem client owner repo number [] st h = (sym (append-nil st.labeled), h)
  run_rules_lem client owner repo number (rule ∷ rules) st h =
      let (e, s) = match_by_lem st.cache rule.conditions rule h in
      let cache : Cache = (match_compound_rule w st.cache rule t).1 in
      let passed : Labels st (chosen client owner repo number rules)
          (run_rules w client owner repo number t rules (record st { cache = cache })) =
        run_rules_lem client owner repo number rules (record st { cache = cache }) s in
      elim (Bool-cases (match_compound_rule w st.cache rule t).0) [
        | inr k ↦ rw (k, sym e ∙ k, run_rules, chosen) passed
        | inl k ↦
            elim (Option-cases (client.add_label owner repo number rule.label (color_of rule))) [
              | inr (err, l) ↦
                  rw (k, sym e ∙ k, run_rules, chosen) (rw (l, run_rules, chosen) passed)
              | inl l ↦
                  rw (k, sym e ∙ k, run_rules, chosen)
                    (rw (l, run_rules, chosen)
                      (stop_or_go rule.exclusive (labeled_by rule owner repo number) st
                        (run_rules w client owner repo number t rules)
                        (chosen client owner repo number rules) cache s
                        (λ st' h'. run_rules_lem client owner repo number rules st' h')))
            ]
      ]

-- The labels for the changed files of a pull request, from the rules in the order of `sort`.
pub labels_for :
    World
    → Sort
    → Config
    → PrRecord
    → Option (RepoGroup × Client × Bytes × Bytes)
    → Result (List Bytes)
    → List Labeled
labels_for w sort cfg pr (some (group, client, owner, repo)) (ok files) =
    chosen w (record { files = files; title = pr.title; author = pr.author }) client owner repo
      pr.pr_number (sort (group.label_rules ++ cfg.label_rules))
labels_for w sort cfg pr _ _ = []

-- `GetDiffFiles`
pub diff_files : PrRecord → Option (RepoGroup × Client × Bytes × Bytes) → Result (List Bytes)
diff_files pr none = panic
diff_files pr (some (group, client, owner, repo)) = client.get_diff_files owner repo pr.pr_number

-- For a pull request that was opened, the platform takes exactly the labels of the rules that
-- apply, the rules of the group and the global ones in the order of the sort, up to the first
-- exclusive one that was set; where client, group, repository or files are not to be had, there are
-- none. Whether a rule applies is described without the cache: the cache of compiled patterns, if
-- it is sound before, changes no answer, and stays sound and within its bound.
pub handle_pr_opened_lem :
    (w : World) (sort : Sort) (cfg : Config) (pr : PrRecord) (name : Bytes) (st : LabelState)
    → IsSound w st.cache
    → ((handle_pr_opened w sort (some cfg) pr name st).labeled
        ≡ st.labeled
          ++ labels_for w sort cfg pr
              (find_target w cfg pr name)
              (diff_files pr (find_target w cfg pr name)))
      × IsSound w (handle_pr_opened w sort (some cfg) pr name st).cache
unfolding handle_pr_opened label_files merge_rules labels_for diff_files Labels
handle_pr_opened_lem w sort cfg pr name st h = elim (Option-cases (find_target w cfg pr name)) [
  | inl k ↦ rw (k, handle_pr_opened, labels_for, diff_files) (sym (append-nil st.labeled), h)
  | inr ((group, client, owner, repo), k) ↦
      elim (Result-cases (client.get_diff_files owner repo pr.pr_number)) [
        | inr (inl (e, l)) ↦
            rw (k, l, handle_pr_opened, labels_for, diff_files) (sym (append-nil st.labeled), h)
        | inr (inr l) ↦
            rw (k, l, handle_pr_opened, labels_for, diff_files) (sym (append-nil st.labeled), h)
        | inl (files, l) ↦
            rw (k, l, handle_pr_opened, labels_for, diff_files)
              (run_rules_lem w (record { files = files; title = pr.title; author = pr.author })
                client owner repo pr.pr_number (sort (group.label_rules ++ cfg.label_rules)) st h)
      ]
]

-- One pull request after the other.
pub handle_all : World → Sort → Config → List (PrRecord × Bytes) → LabelState → LabelState
handle_all w sort cfg [] st = st
handle_all w sort cfg ((pr, name) ∷ prs) st =
    handle_all w sort cfg prs (handle_pr_opened w sort (some cfg) pr name st)

handle_all-IsSound :
    (w : World) (sort : Sort) (cfg : Config) (prs : List (PrRecord × Bytes)) (st : LabelState)
    → IsSound w st.cache
    → IsSound w (handle_all w sort cfg prs st).cache
unfolding handle_all
handle_all-IsSound w sort cfg [] st h = h
handle_all-IsSound w sort cfg ((pr, name) ∷ prs) st h =
    handle_all-IsSound w sort cfg prs (handle_pr_opened w sort (some cfg) pr name st)
      (handle_pr_opened_lem w sort cfg pr name st h).1

-- However many pull requests are opened, with whatever patterns, the cache that is empty at the
-- start never holds more than 1000 compiled patterns.
pub handle_all-bound :
    (w : World) (sort : Sort) (cfg : Config) (prs : List (PrRecord × Bytes))
    → length (handle_all w sort cfg prs (record { cache = []; labeled = [] })).cache
      ≤ max_compiled_patterns
unfolding lookup
handle_all-bound w sort cfg prs =
    (handle_all-IsSound w sort cfg prs (record { cache = []; labeled = [] })
      (record { coherent = λ k re e. cc; bound = omega arith })).bound

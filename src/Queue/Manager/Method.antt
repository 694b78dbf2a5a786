-- ===== src/Queue/Manager/Method.antt =====
-- `selectMergeMethod` of manager.go.
pub mod Choice
use asika.Prelude.{
  ℕ, Bool, true, false, not, ◌&&◌, ◌||◌, Option, none, some, List, [], ◌∷◌, Bytes, lit, is_empty,
  contains, any, Result, ok, fail, panic, if◌then◌else◌,
}
use asika.Prelude.Int.{lt_int}
use asika.Models.{RepoGroup, PrRecord, MergeStrategyRule}
use asika.Queue.World.{World, Client}
use asika.Queue.Checker.Paths.{mem}

unfoldable pub is_put_first : World → MergeStrategyRule → MergeStrategyRule → Bool
is_put_first w r rule =
    lt_int rule.priority r.priority || (not (lt_int r.priority rule.priority) && w.rule_tie r rule)

unfoldable pub insert_rule :
    World → MergeStrategyRule → List MergeStrategyRule → List MergeStrategyRule
unfolding is_put_first
insert_rule w rule [] = rule ∷ []
insert_rule w rule (r ∷ rules) =
    if is_put_first w r rule then r ∷ insert_rule w rule rules else rule ∷ r ∷ rules

-- Higher priority first.
unfoldable pub sort_rules : World → List MergeStrategyRule → List MergeStrategyRule
unfolding insert_rule
sort_rules w [] = []
sort_rules w (rule ∷ rules) = insert_rule w rule (sort_rules w rules)

unfoldable pub rule_matches : PrRecord → MergeStrategyRule → Bool
rule_matches pr rule =
    any (mem pr.labels) rule.labels
    || (not (is_empty rule.pattern) && contains pr.title rule.pattern)

unfoldable pub first_match : PrRecord → List MergeStrategyRule → Option MergeStrategyRule
first_match pr [] = none
first_match pr (rule ∷ rules) = if rule_matches pr rule then some rule else first_match pr rules

unfoldable pub default_method : RepoGroup → Client → Bytes → Bytes → Bytes
default_method group client owner repo =
    if not (is_empty group.merge_queue.default_merge_method)
    then group.merge_queue.default_merge_method
    else elim (client.get_default_merge_method owner repo) [
      | ok method ↦ method
      | fail e ↦ lit "merge"
      | panic ↦ lit "merge"
    ]

unfoldable pub select_merge_method : World → PrRecord → RepoGroup → Client → Bytes → Bytes → Bytes
unfolding default_method
select_merge_method w pr group client owner repo =
    elim (first_match pr (sort_rules w group.merge_queue.merge_strategy_rules)) [
      | some rule ↦ rule.merge_method
      | none ↦ default_method group client owner repo
    ]

-- ===== src/AutoMerge/Merges.antt =====
-- The merges of a whole evaluation.
use asika.Prelude.{
  ◌≡◌, ◌⊎◌, inl, inr, Bool, true, false, ◌||◌, Option, none, some, List, [], ◌∷◌, ◌++◌, Bytes, ok,
}
use asika.Models.{Config, RepoGroup, PrRecord}
use asika.Models.Rules.{AutoMergeRule}
use asika.Config.{get_owner_repo_from_group, get_repo_groups, group_platforms}
use asika.Queue.World.{World, Client}
use asika.Queue.Store.{Merged}
use asika.AutoMerge.{AutoState, matches_rule, merge_pr, try_rule}
use asika.AutoMerge.Placed.{IsMergeOf, merge_pr-MayMerge}
use asika.AutoMerge.Sound.{IsAllowed, matches_rule_sound}

-- The element is in the list.
abbrev pub Among : {A : Type 0} → A → List A → Type 0
Among x [] = ⊥
Among x (y ∷ ys) = (x ≡ y) ⊎ Among x ys

-- The state behind the test of a rule, which can repair the index of the database.
abbrev pub tested : World → Config → AutoMergeRule → PrRecord → AutoState → AutoState
tested w cfg rule pr s = record s { store = (matches_rule w cfg rule pr s.store).1 }

-- The turn of one pull request under one rule: nothing is merged, or the rule allows the pull request
-- in the state before the turn and the platform takes one merge of it.
pub data Turn (w : World) (cfg : Config) (rule : AutoMergeRule) (pr : PrRecord) (s s' : AutoState)
    : Type 0 where
  looked : s' ≡ tested w cfg rule pr s → Turn w cfg rule pr s s'
  merged :
      (m : Merged)
      → IsAllowed w cfg rule pr s.store
      → IsMergeOf w cfg pr m
      → s' ≡ record (tested w cfg rule pr s) { merges = s.merges ++ m ∷ [] }
      → Turn w cfg rule pr s s'

pub try_rule-Turn :
    (w : World) (cfg : Config) (rule : AutoMergeRule) (pr : PrRecord) (s : AutoState)
    → (try_rule w cfg rule pr s).0 ≡ ok true
    → Turn w cfg rule pr s (merge_pr w cfg pr (try_rule w cfg rule pr s).1).1
unfolding try_rule
try_rule-Turn w cfg rule pr s h = elim (merge_pr-MayMerge w cfg pr (tested w cfg rule pr s)) [
  | inl e ↦ looked e
  | inr (m, of, e) ↦ merged m (matches_rule_sound w cfg rule pr s.store h) of e
]

-- A nil record, a draft or spam.
abbrev pub is_unfit : Option PrRecord → Bool
is_unfit none = true
is_unfit (some pr) = pr.is_draft || pr.spam_flag

module _ (ws : AutoState → World) (cfg : Config) where
  -- A listed pull request is passed over, or it has its turn.
  pub data Took (rule : AutoMergeRule) (listed : Option PrRecord) (s s' : AutoState) : Type 0 where
    passed : is_unfit listed ≡ true → s' ≡ s → Took rule listed s s'
    turned :
        (pr : PrRecord)
        → listed ≡ some pr
        → is_unfit listed ≡ false
        → Turn (ws s) cfg rule pr s s'
        → Took rule listed s s'

  -- The turns of the listed pull requests, one after the other; a panic ends them.
  pub data Turns (rule : AutoMergeRule)
      : List (Option PrRecord) → AutoState → AutoState → Type 0 where
    stop : {prs : List (Option PrRecord)} {s : AutoState} → Turns rule prs s s
    take :
        {prs : List (Option PrRecord)} {s t s' : AutoState}
        → (listed : Option PrRecord) → Took rule listed s t
        → Turns rule prs t s'
        → Turns rule (listed ∷ prs) s s'

  -- The turns of what a platform lists for the repository of a group, under an enabled rule.
  pub record Round (s s' : AutoState) : Type 0 where
    pub group : RepoGroup
    pub group_among : Among group (get_repo_groups cfg)
    pub rule : AutoMergeRule
    pub rule_among : Among rule cfg.auto_merge.rules
    pub enabled : rule.enabled ≡ true
    pub platform : Bytes
    pub platform_among : Among platform (group_platforms group)
    pub client : Client
    pub client-lem : (ws s).clients platform ≡ some client
    pub prs : List (Option PrRecord)
    pub listed-lem :
        client.list_prs
          (get_owner_repo_from_group group platform).0
          (get_owner_repo_from_group group platform).1
        ≡ ok prs
    pub turns : Turns rule prs s s'

  pub data Rounds (s : AutoState) : AutoState → Type 0 where
    start : Rounds s s
    next : {t s' : AutoState} → Rounds s t → Round t s' → Rounds s s'

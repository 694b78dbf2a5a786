-- ===== src/AutoMerge/Once.antt =====
-- `EvaluatePR` merges at most once.
use asika.Prelude.{
  ◌≡◌, ◌≢◌, ◌⊎◌, refl, inl, inr, true, false, not, ◌||◌, some, List, [], ◌∷◌, ◌++◌, ok, arith,
  Bool-cases, Result-cases,
}
use asika.Models.{Config, PrRecord}
use asika.Models.Rules.{AutoMergeRule}
use asika.Queue.World.{World}
use asika.Queue.Store.{PrStore, Merged}
use asika.AutoMerge.{AutoState, matches_rule, try_rule, first_rule, is_closed, evaluate_pr}
use asika.AutoMerge.Placed.{IsMergeOf, MayMerge, merge_pr-MayMerge}
use asika.AutoMerge.Sound.{IsAllowed, matches_rule_sound}

module _ (w : World) (cfg : Config) (pr : PrRecord) where
  -- A rule of the list is the first enabled one that matches, and it allows the pull request in the
  -- store that the tests of the earlier rules leave.
  pub data IsFirst : List AutoMergeRule → PrStore → Type 0 where
    here :
        {rules : List AutoMergeRule} {store : PrStore}
        → (rule : AutoMergeRule) → rule.enabled ≡ true
        → IsAllowed w cfg rule pr store
        → IsFirst (rule ∷ rules) store
    disabled :
        {rules : List AutoMergeRule} {store : PrStore}
        → (rule : AutoMergeRule) → rule.enabled ≡ false
        → IsFirst rules store
        → IsFirst (rule ∷ rules) store
    unmatched :
        {rules : List AutoMergeRule} {store : PrStore}
        → (rule : AutoMergeRule) → rule.enabled ≡ true
        → (matches_rule w cfg rule pr store).0 ≢ ok true
        → IsFirst rules (matches_rule w cfg rule pr store).1
        → IsFirst (rule ∷ rules) store

  -- Nothing was merged, or the platform took one merge of the pull request, which a rule allows.
  abbrev pub AtMostOne : List AutoMergeRule → AutoState → AutoState → Type 0
  AtMostOne rules s s' =
      (s'.merges ≡ s.merges)
      ⊎ ((m : Merged) × IsMergeOf w cfg pr m
          × IsFirst rules s.store
          × (s'.merges ≡ s.merges ++ m ∷ []))

  behind :
      (rule : AutoMergeRule) (rules : List AutoMergeRule) (s s' : AutoState)
      → rule.enabled ≡ true
      → (matches_rule w cfg rule pr s.store).0 ≢ ok true
      → AtMostOne rules (try_rule w cfg rule pr s).1 s'
      → AtMostOne (rule ∷ rules) s s'
  unfolding try_rule
  behind rule rules s s' on miss (inl h) = inl h
  behind rule rules s s' on miss (inr (m, of, first, h)) =
      inr (m, of, unmatched rule on miss first, h)

  behind_disabled :
      (rule : AutoMergeRule) (rules : List AutoMergeRule) (s s' : AutoState)
      → rule.enabled ≡ false
      → AtMostOne rules s s'
      → AtMostOne (rule ∷ rules) s s'
  behind_disabled rule rules s s' off (inl h) = inl h
  behind_disabled rule rules s s' off (inr (m, of, first, h)) =
      inr (m, of, disabled rule off first, h)

  first_rule-AtMostOne :
      (rules : List AutoMergeRule) (s : AutoState)
      → AtMostOne rules s (first_rule w cfg pr rules s).1
  unfolding first_rule try_rule
  first_rule-AtMostOne [] s = inl refl
  first_rule-AtMostOne (rule ∷ rules) s = elim (Bool-cases rule.enabled) [
    | inr off ↦
        simp (off, first_rule)
          (behind_disabled rule rules s (first_rule w cfg pr rules s).1 off
            (first_rule-AtMostOne rules s))
    | inl on ↦ elim (Result-cases (matches_rule w cfg rule pr s.store).0) [
      | inr (inr l) ↦ simp (on, l, first_rule) (inl refl)
      | inr (inl (e, l)) ↦
          simp (on, l, first_rule)
            (behind rule rules s (first_rule w cfg pr rules (try_rule w cfg rule pr s).1).1 on
              (rw l (cc)) (first_rule-AtMostOne rules (try_rule w cfg rule pr s).1))
      | inl (false, l) ↦
          simp (on, l, first_rule)
            (behind rule rules s (first_rule w cfg pr rules (try_rule w cfg rule pr s).1).1 on
              (rw l (cc)) (first_rule-AtMostOne rules (try_rule w cfg rule pr s).1))
      | inl (true, l) ↦
          simp (on, l, first_rule)
            (merged rule rules s on l (merge_pr-MayMerge w cfg pr (try_rule w cfg rule pr s).1))
    ]
  ]
    where
      merged :
          (rule : AutoMergeRule) (rules : List AutoMergeRule) (s : AutoState)
          → rule.enabled ≡ true
          → (matches_rule w cfg rule pr s.store).0 ≡ ok true
          → {s' : AutoState} → MayMerge w cfg pr (try_rule w cfg rule pr s).1 s'
          → AtMostOne (rule ∷ rules) s s'
      merged rule rules s on l (inl h) = inl (rw h refl)
      merged rule rules s on l (inr (m, of, h)) =
          inr (m, of, here rule on (matches_rule_sound w cfg rule pr s.store l), rw h refl)

-- For one pull request `EvaluatePR` merges nothing, or the platform takes one merge of it: it is open,
-- and the first enabled rule that matches allows it, however many match.
pub evaluate_pr-AtMostOne :
    (w : World) (cfg : Config) (pr : PrRecord) (st : AutoState)
    → (is_closed pr ≡ false)
        × AtMostOne w cfg pr cfg.auto_merge.rules st (evaluate_pr w cfg (some pr) st).1
      ⊎ ((evaluate_pr w cfg (some pr) st).1.merges ≡ st.merges)
unfolding evaluate_pr
evaluate_pr-AtMostOne w cfg pr st = elim (Bool-cases (not cfg.auto_merge.enabled || is_closed pr)) [
  | inl k ↦ inr (rw (k, evaluate_pr) refl)
  | inr k ↦ inl (
    ground (arith, k),
    rw (k, evaluate_pr) (first_rule-AtMostOne w cfg pr cfg.auto_merge.rules st),
  )
]

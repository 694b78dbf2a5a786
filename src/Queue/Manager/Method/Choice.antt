-- ===== src/Queue/Manager/Method/Choice.antt =====
-- Which rule `selectMergeMethod` takes.
use mathlib.Core.Path.{subst}
use asika.Prelude.{◌≡◌, inl, inr, true, false, ◌&&◌, some, List, [], ◌∷◌, All, Bool-cases, arith}
use asika.Prelude.Int.{ℤ, lt_int}
use asika.Models.{PrRecord, MergeStrategyRule}
use asika.Queue.World.{World}
use asika.Queue.Manager.Method.{is_put_first, insert_rule, sort_rules, rule_matches, first_match}

lt_int_trans : (a b c : ℤ) → lt_int a b ≡ false → lt_int b c ≡ false → lt_int a c ≡ false
lt_int_trans a b c h k = ground arith

lt_int_asym : (a b : ℤ) → lt_int a b ≡ true → lt_int b a ≡ false
lt_int_asym a b h = ground arith

abbrev IsLimit : ℤ → List MergeStrategyRule → Type 0
IsLimit p rules = All (λ r. lt_int p r.priority ≡ false) rules

abbrev IsRanked : List MergeStrategyRule → Type 0
IsRanked [] = Unit
IsRanked (rule ∷ rules) = IsLimit rule.priority rules × IsRanked rules

IsLimit-trans :
    (p q : ℤ) (rules : List MergeStrategyRule)
    → lt_int p q ≡ false
    → IsLimit q rules
    → IsLimit p rules
IsLimit-trans p q [] h _ = tt
IsLimit-trans p q (r ∷ rules) h (k, ks) =
    (lt_int_trans p q r.priority h k, IsLimit-trans p q rules h ks)

is_put_first-eq_false :
    (w : World) (r rule : MergeStrategyRule)
    → is_put_first w r rule ≡ false
    → lt_int rule.priority r.priority ≡ false
unfolding is_put_first
is_put_first-eq_false w r rule h = ground (arith, h)

is_put_first-eq_true :
    (w : World) (r rule : MergeStrategyRule)
    → is_put_first w r rule ≡ true
    → lt_int r.priority rule.priority ≡ false
unfolding is_put_first
is_put_first-eq_true w r rule h = elim (Bool-cases (lt_int rule.priority r.priority)) [
  | inl e ↦ lt_int_asym rule.priority r.priority e
  | inr e ↦ ground (arith, h, e)
]

module _ (w : World) where
  All-insert_rule :
      (P : MergeStrategyRule → Type 0) (rule : MergeStrategyRule) (rules : List MergeStrategyRule)
      → P rule
      → All P rules
      → All P (insert_rule w rule rules)
  unfolding insert_rule
  All-insert_rule P rule [] h _ = (h, tt)
  All-insert_rule P rule (r ∷ rules) h (k, ks) = elim (Bool-cases (is_put_first w r rule)) [
    | inl e ↦ rw e (k, All-insert_rule P rule rules h ks)
    | inr e ↦ rw e (h, (k, ks))
  ]

  insert_rule-All :
      (P : MergeStrategyRule → Type 0) (rule : MergeStrategyRule) (rules : List MergeStrategyRule)
      → All P (insert_rule w rule rules)
      → P rule × All P rules
  unfolding insert_rule
  insert_rule-All P rule [] h = h
  insert_rule-All P rule (r ∷ rules) h = elim (Bool-cases (is_put_first w r rule)) [
    | inl e ↦
        let (k, ks) = rw e at h in
        let (own, others) = insert_rule-All P rule rules ks in (own, (k, others))
    | inr e ↦ rw e at h
  ]

  insert_rule-IsRanked :
      (rule : MergeStrategyRule) (rules : List MergeStrategyRule)
      → IsRanked rules
      → IsRanked (insert_rule w rule rules)
  unfolding insert_rule
  insert_rule-IsRanked rule [] _ = (tt, tt)
  insert_rule-IsRanked rule (r ∷ rules) (k, ranked) = elim (Bool-cases (is_put_first w r rule)) [
    | inl e ↦ rw e (
      All-insert_rule _ rule rules (is_put_first-eq_true w r rule e) k,
      insert_rule-IsRanked rule rules ranked,
    )
    | inr e ↦
        let p : lt_int rule.priority r.priority ≡ false = is_put_first-eq_false w r rule e in
        rw e ((p, IsLimit-trans rule.priority r.priority rules p k), (k, ranked))
  ]

  sort_rules-IsRanked : (rules : List MergeStrategyRule) → IsRanked (sort_rules w rules)
  unfolding sort_rules
  sort_rules-IsRanked [] = tt
  sort_rules-IsRanked (r ∷ rules) = insert_rule-IsRanked r _ (sort_rules-IsRanked rules)

  sort_rules-All :
      (P : MergeStrategyRule → Type 0) (rules : List MergeStrategyRule)
      → All P (sort_rules w rules)
      → All P rules
  unfolding sort_rules
  sort_rules-All P [] _ = tt
  sort_rules-All P (r ∷ rules) h =
      let (own, others) = insert_rule-All P r (sort_rules w rules) h in
      (own, sort_rules-All P rules others)

-- The rule does not beat the choice: it does not match, or its priority is not higher.
abbrev pub IsBeaten : PrRecord → MergeStrategyRule → MergeStrategyRule → Type 0
IsBeaten pr choice r = (rule_matches pr r && lt_int choice.priority r.priority) ≡ false

All-IsBeaten :
    (pr : PrRecord) (c : MergeStrategyRule) (rules : List MergeStrategyRule)
    → IsLimit c.priority rules
    → All (IsBeaten pr c) rules
All-IsBeaten pr c [] _ = tt
All-IsBeaten pr c (r ∷ rules) (k, ks) = (ground (arith, k), All-IsBeaten pr c rules ks)

first_match-beats :
    (pr : PrRecord) (c : MergeStrategyRule) (rules : List MergeStrategyRule)
    → IsRanked rules
    → first_match pr rules ≡ some c
    → (rule_matches pr c ≡ true) × All (IsBeaten pr c) rules
unfolding first_match
first_match-beats pr c [] ranked h = cc
first_match-beats pr c (r ∷ rules) (limit, ranked) h = elim (Bool-cases (rule_matches pr r)) [
  | inl e ↦
      let same : r ≡ c = ground (arith, rw e at h) in
      let self : IsBeaten pr r r = ground arith in
      subst (λ x. (rule_matches pr x ≡ true) × All (IsBeaten pr x) (r ∷ rules)) same
        (e, (self, All-IsBeaten pr r rules limit))
  | inr e ↦
      let (m, beaten) = first_match-beats pr c rules ranked (rw e at h) in
      (m, (ground (arith, e), beaten))
]

-- The rule that is taken after the sort matches the pull request, and no rule of the group that
-- matches has a higher priority.
pub first_match-sort_rules :
    (w : World) (pr : PrRecord) (rules : List MergeStrategyRule) (choice : MergeStrategyRule)
    → first_match pr (sort_rules w rules) ≡ some choice
    → (rule_matches pr choice ≡ true) × All (IsBeaten pr choice) rules
first_match-sort_rules w pr rules choice h =
    let (m, beaten) =
      first_match-beats pr choice (sort_rules w rules) (sort_rules-IsRanked w rules) h in
    (m, sort_rules-All w (IsBeaten pr choice) rules beaten)

-- ===== src/Workflow/Tests.antt =====
-- Runs of conditions.
use asika.Prelude.{
  ◌≡◌, refl, true, false, ok, fail, plain, some, [], ◌∷◌, lit, text_eq, trim_space, has_prefix,
  contains,
}
use asika.Workflow.Expression.{
  PrContext, show_bool, replace_from, replace_all, before_quote, match_label, has_label,
  replace_labels, replace_each, cons_first, split_at, any_part, all_parts, negate, ends_with, inner,
  expression_step, evaluate_expression, evaluate, prefixed, spaced, evaluate_condition,
}

abbrev context : PrContext
context = record {
  ci_passed = true;
  ci_failed = false;
  has_conflicts = false;
  is_approved = false;
  is_draft = false;
  labels = lit "ready" ∷ [];
}

passes : evaluate_condition (λ pairs. pairs) (lit "ci_passed && !draft") context ≡ some (ok true)
unfolding evaluate_condition prefixed evaluate evaluate_expression expression_step inner ends_with
    negate all_parts any_part split_at cons_first spaced replace_each replace_all replace_from
    replace_labels match_label before_quote has_label show_bool lit text_eq has_prefix contains
    trim_space
passes = refl

-- Parentheses do not hold a condition together.
grouped :
    evaluate (lit "(true || false) && true") ≡ some (fail (plain (lit "invalid expression: (true")))
unfolding evaluate evaluate_expression expression_step inner ends_with negate all_parts any_part
    split_at cons_first lit text_eq has_prefix contains trim_space
grouped = refl

-- ===== src/Queue/Expr/Contributors.antt =====
-- The field CoreContributors of `EvalContext` in expr.go: no expression reads it.
use mathlib.Core.Path.{fun_ext}
use asika.Prelude.{
  ℕ, zero, suc, ◌≡◌, refl, false, some, List, Bytes, lit, ok, trim_space, text_eq, has_prefix,
  to_lower, to_upper, Bool-cases, inl, inr,
}
use asika.Queue.Expr.{Fueled, eval_comparison, eval_step, eval_expr, eval}
use asika.Queue.Expr.Values.{Floats, EvalContext, parse_int}
use asika.Queue.Expr.Scan.{is_wrapped, find_operator, index}

module _ (fl : Floats) (ctx : EvalContext fl) (ccs : List Bytes) where
  abbrev other : EvalContext fl
  other = record ctx { core_contributors = ccs }

  eval_comparison-blind : (s : Bytes) → eval_comparison fl s other ≡ eval_comparison fl s ctx
  unfolding eval_comparison
  eval_comparison-blind s = refl

  eval_step-blind :
      (rec : Bytes → Fueled fl) (s : Bytes) → eval_step fl rec s other ≡ eval_step fl rec s ctx
  unfolding eval_step eval_comparison
  eval_step-blind rec s = refl

  eval_expr-blind : (fuel : ℕ) (s : Bytes) → eval_expr fl fuel s other ≡ eval_expr fl fuel s ctx
  unfolding eval_expr
  eval_expr-blind zero s = refl
  eval_expr-blind (suc fuel) s =
      rw (fun_ext (eval_expr-blind fuel)) (eval_step-blind _ (trim_space s))

  -- Two contexts that differ only in the core contributors give every condition one verdict.
  pub eval-blind : (s : Bytes) → eval fl s other ≡ eval fl s ctx
  unfolding eval
  eval-blind s = rw (eval_expr-blind _ (trim_space s))

-- The condition `author IN core_contributors`, which the sample configuration proposes, is false
-- in every context, whoever the author and the core contributors are.
pub author_in_core_contributors :
    (fl : Floats) (ctx : EvalContext fl)
    → eval fl (lit "author IN core_contributors") ctx ≡ some (ok false)
unfolding eval eval_expr eval_step eval_comparison is_wrapped find_operator index parse_int lit
    text_eq has_prefix trim_space to_lower to_upper
author_in_core_contributors fl ctx =
    elim (Bool-cases (fl.parse_float (lit "core_contributors")).1) [ inl e ↦ rw e | inr e ↦ rw e ]

-- ===== src/Queue/Expr/Total.antt =====
-- The fuel of `eval` is enough: the parts on which `evalExpr` calls itself are shorter.
use asika.Prelude.{
  ℕ, zero, suc, ◌-◌, ◌<◌, ◌≢◌, inl, inr, none, some, [], ◌∷◌, Bytes, lit, arith, length, take, drop,
  length-take_bound, length-take_le, length-drop_le, trim_space, length-trim_space_le, has_prefix,
  is_empty, Bool-cases, Option-cases, if◌then◌else◌,
}
use asika.Queue.Expr.{
  Fueled, eval_step, eval_expr, eval, eval_comparison, or_else, and_then, negated,
}
use asika.Queue.Expr.Values.{Floats, EvalContext}
use asika.Queue.Expr.Scan.{find_operator, find_operator-lt, is_wrapped}

shorter_take : (i : ℕ) (s : Bytes) → i < length s → length (trim_space (take i s)) < length s
shorter_take i s h = omega (arith, length-trim_space_le (take i s), length-take_bound {0} i s)

shorter_drop :
    (n i : ℕ) (s : Bytes) → i < length s → length (trim_space (drop (suc n) (drop i s))) < length s
shorter_drop n zero (c ∷ s) h =
    omega (arith, length-trim_space_le (drop n s), length-drop_le {0} n s)
shorter_drop n zero [] h = elim h [ ]
shorter_drop n (suc i) [] h = elim h [ ]
shorter_drop n (suc i) (c ∷ s) h = omega (
  arith,
  length-trim_space_le (drop (suc n) (drop i s)),
  length-drop_le {0} (suc n) (drop i s),
  length-drop_le {0} i s,
)

shorter_inner :
    (c : ℕ) (s : Bytes) → length (take (length (c ∷ s) - 2) (drop 1 (c ∷ s))) < length (c ∷ s)
shorter_inner c s = omega (arith, length-take_le {0} (length (c ∷ s) - 2) s)

module _ (fl : Floats) where
  or_else-ne-none : (l r : Fueled fl) → l ≢ none → r ≢ none → or_else fl l r ≢ none
  or_else-ne-none l r hl hr = ground arith

  and_then-ne-none : (l r : Fueled fl) → l ≢ none → r ≢ none → and_then fl l r ≢ none
  and_then-ne-none l r hl hr = ground arith

  negated-ne-none : (l : Fueled fl) → l ≢ none → negated fl l ≢ none
  negated-ne-none l hl = ground arith

  module _ (rec : Bytes → Fueled fl) (ctx : EvalContext fl) where
    atom-ne-none :
        (s : Bytes)
        → rec (trim_space (drop 4 s)) ≢ none
        → (if has_prefix s (lit "NOT ")
            then negated fl (rec (trim_space (drop 4 s)))
            else some (eval_comparison fl s ctx))
          ≢ none
    atom-ne-none s h = elim (Bool-cases (has_prefix s (lit "NOT "))) [
      | inl e ↦ rw e (negated-ne-none _ h)
      | inr e ↦ rw e (cc)
    ]

    -- A step ends where the calls on shorter texts do.
    eval_step-ne-none :
        (s : Bytes)
        → ((e : Bytes) → length e < length s → rec e ≢ none)
        → eval_step fl rec s ctx ≢ none
    unfolding eval_step
    eval_step-ne-none [] h = unfold is_wrapped find_operator has_prefix lit in cc
    eval_step-ne-none (c ∷ r) h =
        let s : Bytes = c ∷ r in
        elim (Bool-cases (is_wrapped s)) [
          | inl e ↦ rw e (h _ (shorter_inner c r))
          | inr e ↦ rw e (elim (Option-cases (find_operator s (lit "OR"))) [
            | inr (i, o) ↦ rw o (
                or_else-ne-none _ _ (h _ (shorter_take i s (find_operator-lt s _ i o)))
                  (h _ (shorter_drop 1 i s (find_operator-lt s _ i o))))
            | inl o ↦ rw o (elim (Option-cases (find_operator s (lit "AND"))) [
              | inr (i, a) ↦ rw a (
                  and_then-ne-none _ _ (h _ (shorter_take i s (find_operator-lt s _ i a)))
                    (h _ (shorter_drop 2 i s (find_operator-lt s _ i a))))
              | inl a ↦ rw a (atom-ne-none s (h _ (shorter_drop 3 0 s (omega arith))))
            ])
          ])
        ]

  pub eval_expr-ne-none :
      (fuel : ℕ) (s : Bytes) (ctx : EvalContext fl)
      → length s < fuel
      → eval_expr fl fuel s ctx ≢ none
  unfolding eval_expr
  eval_expr-ne-none zero s ctx h = elim h [ ]
  eval_expr-ne-none (suc fuel) s ctx h =
      eval_step-ne-none (λ e. eval_expr fl fuel e ctx) ctx (trim_space s)
        λ e shorter. eval_expr-ne-none fuel e ctx (omega (arith, length-trim_space_le s))

  -- Evaluating a merge condition always ends: for every text and every context, with the fuel
  -- that `eval` gives, the recursion of `evalExpr` reaches a verdict, an error or a panic.
  pub eval-ne-none : (s : Bytes) (ctx : EvalContext fl) → eval fl s ctx ≢ none
  unfolding eval
  eval-ne-none s ctx = elim (Bool-cases (is_empty (trim_space s))) [
    | inl e ↦ rw e (cc)
    | inr e ↦ rw e (eval_expr-ne-none _ (trim_space s) ctx (omega arith))
  ]

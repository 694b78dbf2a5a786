-- ===== src/Queue/Expr.antt =====
-- daemon/queue/expr.go: merge conditions. `Values` has the values of an expression and their
-- conversions, `Scan` the search for operators; this file evaluates. The recursion of `evalExpr`
-- takes fuel, and `none` says that the fuel ran out: `eval` gives one more than the length.
pub mod Values
pub mod Scan
pub mod Total
pub mod Contributors
pub mod Tests
use asika.Prelude.{
  ℕ, zero, suc, Bool, true, false, not, Option, none, some, List, [], ◌∷◌, ◌++◌, Bytes, String,
  ◌&&◌, lit, text_eq, is_empty, trim_space, to_lower, to_upper, has_prefix, length, take, drop, any,
  Result, ok, fail, panic, Err, plain, if◌then◌else◌, ◌==◌, ◌-◌, get_last?,
}
use asika.Prelude.Int.{ℤ, pos, negsuc, lt_int, eq_int}
use Values.{
  Floats, Value, int, float, text, bool, labels, EvalContext, show_value, cmp_float, parse_int,
}
use asika.Prelude.{◌>>=◌}
use Scan.{index, find_operator, is_wrapped}

abbrev quote : ℕ
quote = b'"'

ends_with_quote : Bytes → Bool
ends_with_quote s = elim (get_last? s) [ none ↦ false | some c ↦ c == quote ]

-- The text begins and ends with a quote. So does a lone quote, of which `name[1:len(name)-1]` is
-- the slice `name[1:0]`, a run-time panic.
is_quoted : Bytes → Bool
unfolding ends_with_quote
is_quoted [] = false
is_quoted (c ∷ s) = c == quote && ends_with_quote (c ∷ s)

unquote : Bytes → Option Bytes
unquote [] = none
unquote (c ∷ []) = none
unquote (c ∷ d ∷ s) = some (take (length s) (d ∷ s))

module _ (fl : Floats) where
  open fl use {parse_float}

  quoted_value : Bytes → Result (Value fl)
  unfolding unquote
  quoted_value name = elim (unquote name) [ none ↦ panic | some s ↦ ok (text s) ]

  -- The default case of `resolve`.
  resolve_literal : Bytes → Result (Value fl)
  unfolding quoted_value is_quoted
  resolve_literal name = if is_quoted name then quoted_value name else elim (parse_int name) [
    | some n ↦ ok (int n)
    | none ↦
        if (parse_float name).1
        then ok (float (parse_float name).0)
        else if text_eq (to_lower name) (lit "true")
        then ok (bool true)
        else if text_eq (to_lower name) (lit "false")
        then ok (bool false)
        else ok (text name)
  ]

  pub resolve : Bytes → EvalContext fl → Result (Value fl)
  unfolding resolve_literal
  resolve name0 ctx =
      let name = trim_space name0 in
      let key = to_lower name in
      if text_eq key (lit "approvals")
      then ok (int (pos ctx.approvals))
      else if text_eq key (lit "required")
      then ok (int ctx.required)
      else if text_eq key (lit "ci")
      then ok (text (to_lower ctx.ci_status))
      else if text_eq key (lit "conflict")
      then ok (bool ctx.has_conflict)
      else if text_eq key (lit "draft")
      then ok (bool ctx.is_draft)
      else if text_eq key (lit "core_approved")
      then ok (int (pos ctx.core_approved))
      else if text_eq key (lit "author")
      then ok (text ctx.author)
      else if text_eq key (lit "age_hours")
      then ok (float ctx.age_hours)
      else if text_eq key (lit "label")
      then ok (labels ctx.label_set)
      else resolve_literal name

  -- `resolve` never returns a `[]string`, so that case of `checkIn` has no value here.
  pub check_in : Value fl → Value fl → Bool
  check_in lv (labels ls) = any (text_eq (show_value fl lv)) ls
  check_in lv _ = false

  pub data Op : Type 0 where
    eq ne ge le gt lt is_in : Op

  compare_values : Value fl → Op → Value fl → Bool
  unfolding check_in
  compare_values lv eq rv = text_eq (show_value fl lv) (show_value fl rv)
  compare_values lv ne rv = not (text_eq (show_value fl lv) (show_value fl rv))
  compare_values lv ge rv = not (lt_int (cmp_float fl lv rv) (pos 0))
  compare_values lv le rv = not (lt_int (pos 0) (cmp_float fl lv rv))
  compare_values lv gt rv = lt_int (pos 0) (cmp_float fl lv rv)
  compare_values lv lt rv = lt_int (cmp_float fl lv rv) (pos 0)
  compare_values lv is_in rv = check_in lv rv

  -- The operators are those of the caller's list, so the default case of the switch is gone.
  pub compare : Bytes → Op → Bytes → EvalContext fl → Result Bool
  unfolding resolve compare_values
  compare left op right ctx = do
    lv ← resolve left ctx
    rv ← resolve right ctx
    ok (compare_values lv op rv)

  -- One round of the loop over the operators, and what follows it.
  split_compare : String → ℕ → Op → Bytes → EvalContext fl → Result Bool → Result Bool
  unfolding compare
  split_compare symbol width op expr ctx later = elim (index expr (lit symbol)) [
    | none ↦ later
    | some i ↦ compare (trim_space (take i expr)) op (trim_space (drop width (drop i expr))) ctx
  ]

  truth_value : Bytes → Result (Value fl) → Result Bool
  truth_value expr panic = panic
  truth_value expr (fail e) = fail e
  truth_value expr (ok (bool b)) = ok b
  truth_value expr (ok _) = fail (plain (lit "invalid expression: " ++ expr))

  membership : Bytes → EvalContext fl → Result Bool
  unfolding compare truth_value
  membership expr ctx = elim (index (to_upper expr) (lit " IN ")) [
    | some i ↦ compare (trim_space (take i expr)) is_in (trim_space (drop 4 (drop i expr))) ctx
    | none ↦ truth_value expr (resolve expr ctx)
  ]

  pub eval_comparison : Bytes → EvalContext fl → Result Bool
  unfolding split_compare membership
  eval_comparison expr0 ctx =
      let expr = trim_space expr0 in
      split_compare "==" 2 eq expr ctx (
        split_compare "!=" 2 ne expr ctx (
          split_compare ">=" 2 ge expr ctx (
            split_compare "<=" 2 le expr ctx (
              split_compare ">" 1 gt expr ctx
                (split_compare "<" 1 lt expr ctx (membership expr ctx))))))

  abbrev pub Fueled : Type 0
  Fueled = Option (Result Bool)

  -- `l, err := …; if err != nil { return false, err }; if l { return true, nil }; return right`
  abbrev or_else : Fueled → Fueled → Fueled
  or_else none right = none
  or_else (some (fail e)) right = some (fail e)
  or_else (some panic) right = some panic
  or_else (some (ok true)) right = some (ok true)
  or_else (some (ok false)) right = right

  abbrev and_then : Fueled → Fueled → Fueled
  and_then none right = none
  and_then (some (fail e)) right = some (fail e)
  and_then (some panic) right = some panic
  and_then (some (ok true)) right = right
  and_then (some (ok false)) right = some (ok false)

  -- The error goes with the value, and no caller reads the value beside an error.
  abbrev negated : Fueled → Fueled
  negated none = none
  negated (some (fail e)) = some (fail e)
  negated (some panic) = some panic
  negated (some (ok b)) = some (ok (not b))

  -- The body of `evalExpr` over its own calls.
  pub eval_step : (Bytes → Fueled) → Bytes → EvalContext fl → Fueled
  eval_step rec expr ctx =
      if is_wrapped expr
      then rec (take (length expr - 2) (drop 1 expr))
      else elim (find_operator expr (lit "OR")) [
        | some i ↦
            or_else (rec (trim_space (take i expr))) (rec (trim_space (drop 2 (drop i expr))))
        | none ↦ elim (find_operator expr (lit "AND")) [
          | some i ↦
              and_then (rec (trim_space (take i expr))) (rec (trim_space (drop 3 (drop i expr))))
          | none ↦
              if has_prefix expr (lit "NOT ")
              then negated (rec (trim_space (drop 4 expr)))
              else some (eval_comparison expr ctx)
        ]
      ]

  pub eval_expr : ℕ → Bytes → EvalContext fl → Fueled
  eval_expr zero expr ctx = none
  eval_expr (suc fuel) expr ctx = eval_step (λ e. eval_expr fuel e ctx) (trim_space expr) ctx

  pub eval : Bytes → EvalContext fl → Fueled
  eval expr0 ctx =
      let expr = trim_space expr0 in
      if is_empty expr then some (ok true) else eval_expr (suc (length expr)) expr ctx

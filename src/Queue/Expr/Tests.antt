-- ===== src/Queue/Expr/Tests.antt =====
-- Runs of merge conditions, with whole numbers in the place of float64.
use asika.Prelude.{
  ◌/◌, ◌-◌, ◌≡◌, refl, Bool, true, false, Option, none, some, ◌≢◌, Result, [], ◌∷◌, lit, ok, panic,
  String, text_eq, has_prefix, trim_space, to_lower, to_upper,
}
use asika.Prelude.Int.{ℤ, pos, lt_int}
use asika.Queue.Expr.{eval, eval_expr, eval_step, eval_comparison}
use asika.Queue.Expr.Values.{Floats, EvalContext, show_int, parse_int, show_value, cmp_float}
use asika.Queue.Expr.Total.{eval-ne-none}
use asika.Queue.Expr.Contributors.{author_in_core_contributors}
use asika.Queue.Expr.Scan.{is_wrapped, find_operator, index}

abbrev pub whole : Floats
whole = record {
  Float = ℤ;
  of_int = λ n. n;
  parse_float = λ s. (pos 0, false);
  lt_float = lt_int;
  show_float = show_int;
  zero_float = pos 0;
  hours_since = λ now t. pos ((now - t) / 3600000000000);
}

abbrev pub reviewed : EvalContext whole
reviewed = record {
  approvals = 3;
  required = pos 2;
  ci_status = lit "success";
  has_conflict = true;
  is_draft = false;
  core_approved = 0;
  author = lit "alice";
  core_contributors = lit "alice" ∷ [];
  age_hours = pos 30;
  label_set = lit "bug" ∷ lit "urgent" ∷ [];
}

run : String → Option (Result Bool)
unfolding eval eval_expr eval_step eval_comparison is_wrapped find_operator index parse_int
    show_value cmp_float lit text_eq has_prefix trim_space to_lower to_upper
run s = eval whole (lit s) reviewed

-- The last condition ends in a lone quote.
runs :
    (run "approvals >= 2" ≡ some (ok true))
    × (run "approvals >= 2 AND ci == failure" ≡ some (ok false))
    × (run "NOT conflict" ≡ some (ok false))
    × (run "(approvals >= 4 OR conflict) AND age_hours > 24" ≡ some (ok true))
    × (run "\"bug\" IN label" ≡ some (ok true))
    × (run "author == \"alice\"" ≡ some (ok true))
    × (run "author == \"" ≡ some (panic))
unfolding run
runs = (refl, refl, refl, refl, refl, refl, refl)

eval-ne-none_example : eval whole (lit "NOT (conflict AND draft)") reviewed ≢ none
eval-ne-none_example = eval-ne-none whole (lit "NOT (conflict AND draft)") reviewed

author_in_core_contributors_example :
    eval whole (lit "author IN core_contributors") reviewed ≡ some (ok false)
author_in_core_contributors_example = author_in_core_contributors whole reviewed

-- ===== src/Workflow/Expression.antt =====
-- daemon/workflow/evaluator.go: conditions on a pull request. Go lists the map of replacements in
-- any order, so the order is a parameter. `evaluateExpression` takes fuel.
use asika.Prelude.{
  ℕ, zero, suc, ◌+◌, ◌-◌, ◌==◌, Bool, true, false, not, ◌&&◌, ◌||◌, Option, none, some, List, [],
  ◌∷◌, ◌++◌, Bytes, lit, text_eq, is_empty, trim_space, has_prefix, contains, length, take, drop,
  get_last?, Result, ok, fail, panic, plain, error_text, if◌then◌else◌,
}

pub record PrContext : Type 0 where
  pub ci_passed : Bool
  pub ci_failed : Bool
  pub has_conflicts : Bool
  pub is_approved : Bool
  pub is_draft : Bool
  pub labels : List Bytes

-- `fmt.Sprintf("%t", b)`
unfoldable pub show_bool : Bool → Bytes
show_bool true = lit "true"
show_bool false = lit "false"

-- `strings.ReplaceAll(s, key, by)` for a key that is not empty; so many bytes are passed over.
unfoldable pub replace_from : Bytes → Bytes → ℕ → Bytes → Bytes
replace_from key by n [] = []
replace_from key by (suc n) (c ∷ s) = replace_from key by n s
replace_from key by zero (c ∷ s) = elim (has_prefix (c ∷ s) key) [
  | true ↦ by ++ replace_from key by (length key - 1) s
  | false ↦ c ∷ replace_from key by 0 s
]

unfoldable pub replace_all : Bytes → Bytes → Bytes → Bytes
unfolding replace_from
replace_all s key by = replace_from key by 0 s

-- The bytes before the first quote.
unfoldable pub before_quote : Bytes → Bytes
before_quote [] = []
before_quote (c ∷ s) = let rest = before_quote s in if c == 34 then [] else c ∷ rest

abbrev pub label_start : Bytes
label_start = lit "has_label(" ++ 34 ∷ []

abbrev pub label_end : Bytes
label_end = 34 ∷ lit ")"

-- The label of a match of `has_label\("([^"]+)"\)` at the start of the text.
unfoldable pub match_label : Bytes → Option Bytes
unfolding before_quote
match_label s =
    let rest = drop (length label_start) s in
    let label = before_quote rest in
    if has_prefix s label_start
      && (not (is_empty label) && has_prefix (drop (length label) rest) label_end)
    then some label
    else none

unfoldable pub has_label : List Bytes → Bytes → Bool
has_label [] name = false
has_label (l ∷ labels) name = text_eq l name || has_label labels name

unfoldable pub replace_labels : List Bytes → ℕ → Bytes → Bytes
unfolding match_label has_label show_bool
replace_labels labels n [] = []
replace_labels labels (suc n) (c ∷ s) = replace_labels labels n s
replace_labels labels zero (c ∷ s) = elim (match_label (c ∷ s)) [
  | some label ↦
      show_bool (has_label labels label)
      ++ replace_labels labels (length label_start + length label + length label_end - 1) s
  | none ↦ c ∷ replace_labels labels 0 s
]

abbrev pub replacements : PrContext → List (Bytes × Bool)
replacements ctx =
    (lit "ci_passed", ctx.ci_passed)
    ∷ (lit "ci_failed", ctx.ci_failed)
    ∷ (lit "has_conflicts", ctx.has_conflicts)
    ∷ (lit "approved", ctx.is_approved)
    ∷ (lit "draft", ctx.is_draft)
    ∷ []

unfoldable pub replace_each : List (Bytes × Bool) → Bytes → Bytes
unfolding replace_all show_bool
replace_each [] s = s
replace_each ((key, value) ∷ pairs) s = replace_each pairs (replace_all s key (show_bool value))

-- `strings.Split(s, sep)` for a separator of twice the byte `c`.
unfoldable pub cons_first : ℕ → List Bytes → List Bytes
cons_first x [] = (x ∷ []) ∷ []
cons_first x (part ∷ parts) = (x ∷ part) ∷ parts

unfoldable pub split_at : ℕ → Bytes → List Bytes
unfolding cons_first
split_at c [] = [] ∷ []
split_at c (x ∷ []) = (x ∷ []) ∷ []
split_at c (x ∷ y ∷ s) =
    let here = split_at c s in
    let later = split_at c (y ∷ s) in if x == c && y == c then [] ∷ here else cons_first x later

-- `none` is a call without fuel.
abbrev pub Fueled : Type 0
Fueled = Option (Result Bool)

unfoldable pub any_part : (Bytes → Fueled) → List Bytes → Fueled
any_part rec [] = some (ok false)
any_part rec (part ∷ parts) = elim (rec (trim_space part)) [
  | none ↦ none
  | some r ↦ elim r [
    | ok b ↦ elim b [ true ↦ some (ok true) | false ↦ any_part rec parts ]
    | fail e ↦ some (fail e)
    | panic ↦ some panic
  ]
]

unfoldable pub all_parts : (Bytes → Fueled) → List Bytes → Fueled
all_parts rec [] = some (ok true)
all_parts rec (part ∷ parts) = elim (rec (trim_space part)) [
  | none ↦ none
  | some r ↦ elim r [
    | ok b ↦ elim b [ true ↦ all_parts rec parts | false ↦ some (ok false) ]
    | fail e ↦ some (fail e)
    | panic ↦ some panic
  ]
]

unfoldable pub negate : Fueled → Fueled
negate none = none
negate (some (ok b)) = some (ok (not b))
negate (some (fail e)) = some (fail e)
negate (some panic) = some panic

unfoldable pub ends_with : ℕ → Bytes → Bool
ends_with c s = elim (get_last? s) [ none ↦ false | some d ↦ d == c ]

-- `expr[1 : len(expr)-1]`
unfoldable pub inner : Bytes → Bytes
inner s = take (length s - 2) (drop 1 s)

-- The body, on a text that is trimmed.
unfoldable pub expression_step : (Bytes → Fueled) → Bytes → Fueled
unfolding split_at any_part all_parts negate ends_with inner
expression_step rec s =
    if text_eq s (lit "true")
    then some (ok true)
    else if text_eq s (lit "false")
    then some (ok false)
    else if contains s (b'|' ∷ b'|' ∷ [])
    then any_part rec (split_at b'|' s)
    else if contains s (b'&' ∷ b'&' ∷ [])
    then all_parts rec (split_at b'&' s)
    else if has_prefix s (b'!' ∷ [])
    then negate (rec (drop 1 s))
    else if has_prefix s (b'(' ∷ []) && ends_with b')' s
    then rec (inner s)
    else some (fail (plain (lit "invalid expression: " ++ s)))

unfoldable pub evaluate_expression : ℕ → Bytes → Fueled
unfolding expression_step
evaluate_expression zero s = none
evaluate_expression (suc fuel) s = expression_step (evaluate_expression fuel) (trim_space s)

-- A text of length `n` takes at most `n + 1` calls inside each other.
unfoldable pub evaluate : Bytes → Fueled
unfolding evaluate_expression
evaluate s = evaluate_expression (suc (length s)) s

unfoldable pub prefixed : Fueled → Fueled
prefixed (some (fail e)) =
    some (fail (plain (lit "failed to evaluate condition: " ++ error_text e)))
prefixed r = r

unfoldable pub spaced : Bytes → Bytes
unfolding replace_all
spaced s = replace_all (replace_all s (lit "&&") (lit " && ")) (lit "||") (lit " || ")

unfoldable pub evaluate_condition :
    (List (Bytes × Bool) → List (Bytes × Bool)) → Bytes → PrContext → Fueled
unfolding replace_labels replace_each spaced evaluate prefixed
evaluate_condition order condition ctx =
    let labeled = replace_labels ctx.labels 0 (trim_space condition) in
    prefixed (evaluate (spaced (replace_each (order (replacements ctx)) labeled)))

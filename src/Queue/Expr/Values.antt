-- ===== src/Queue/Expr/Values.antt =====
-- The values of a merge condition (`interface{}` in expr.go) and their conversions.
-- Go's float64 and the parts of strconv and fmt that read and print it are a parameter.
use asika.Prelude.{
  ℕ, zero, suc, ◌+◌, ◌-◌, ◌*◌, ◌/◌, ◌%◌, ◌^◌, Bool, true, false, Option, none, some, List, [], ◌∷◌,
  ◌++◌, Bytes, lit, text_eq, lex_lt, ltb, leb, ◌==◌, ◌&&◌, if◌then◌else◌,
}
use asika.Prelude.Int.{ℤ, pos, negsuc}

pub record Floats : Type 1 where
  pub Float : Type 0
  pub of_int : ℤ → Float
  -- `strconv.ParseFloat(s, 64)`: the value, and whether the error is nil.
  pub parse_float : Bytes → Float × Bool
  -- `a < b`
  pub lt_float : Float → Float → Bool
  -- `fmt.Sprintf("%v", f)`
  pub show_float : Float → Bytes
  pub zero_float : Float
  -- `time.Since(t).Hours()` at the time that is given first.
  pub hours_since : ℕ → ℕ → Float

-- The decimal digits of a number; `fuel` is at least the number of digits.
show_digits : ℕ → ℕ → Bytes → Bytes
show_digits zero n acc = acc
show_digits (suc fuel) n acc =
    let more = show_digits fuel (n / 10) ((b'0' + n % 10) ∷ acc) in
    if ltb n 10 then (b'0' + n) ∷ acc else more

unfoldable pub show_nat : ℕ → Bytes
unfolding show_digits
show_nat n = show_digits (suc n) n []

pub show_int : ℤ → Bytes
unfolding show_nat
show_int (pos n) = show_nat n
show_int (negsuc n) = b'-' ∷ show_nat (suc n)

parse_digits : ℕ → Bytes → Option ℕ
parse_digits n [] = some n
parse_digits n (c ∷ s) =
    if leb b'0' c && leb c b'9' then parse_digits (n * 10 + (c - b'0')) s else none

negate : ℕ → ℤ
negate zero = pos zero
negate (suc n) = negsuc n

parse_signed : Bool → Bytes → Option ℤ
unfolding parse_digits negate
parse_signed minus [] = none
parse_signed minus (c ∷ s) = elim (parse_digits 0 (c ∷ s)) [
  | none ↦ none
  | some n ↦
      if minus
      then (if leb n (2 ^ 63) then some (negate n) else none)
      else (if ltb n (2 ^ 63) then some (pos n) else none)
]

-- `strconv.Atoi(s)`; `none` is an error, of syntax or of range.
unfoldable pub parse_int : Bytes → Option ℤ
unfolding parse_signed
parse_int [] = none
parse_int (c ∷ s) =
    if c == b'-'
    then parse_signed true s
    else if c == b'+'
    then parse_signed false s
    else parse_signed false (c ∷ s)

-- The keys of a `map[string]bool` in the order in which fmt prints them.
insert_key : Bytes → List Bytes → List Bytes
insert_key k [] = k ∷ []
insert_key k (j ∷ ks) =
    if text_eq k j then j ∷ ks else if lex_lt k j then k ∷ j ∷ ks else j ∷ insert_key k ks

sorted_keys : List Bytes → List Bytes
unfolding insert_key
sorted_keys [] = []
sorted_keys (k ∷ ks) = insert_key k (sorted_keys ks)

show_entries : List Bytes → Bytes
show_entries [] = []
show_entries (k ∷ []) = k ++ lit ":true"
show_entries (k ∷ j ∷ ks) = k ++ lit ":true " ++ show_entries (j ∷ ks)

module _ (fl : Floats) where
  open fl use {Float, of_int, parse_float, lt_float, show_float, zero_float}

  -- What `resolve` returns: an int, a float64, a string, a bool or the set of labels.
  pub data Value : Type 0 where
    int : ℤ → Value
    float : Float → Value
    text : Bytes → Value
    bool : Bool → Value
    labels : List Bytes → Value

  pub record EvalContext : Type 0 where
    pub approvals : ℕ
    pub required : ℤ
    pub ci_status : Bytes
    pub has_conflict : Bool
    pub is_draft : Bool
    pub core_approved : ℕ
    pub author : Bytes
    pub core_contributors : List Bytes
    pub age_hours : Float
    pub label_set : List Bytes

  -- `fmt.Sprintf("%v", v)`
  unfoldable pub show_value : Value → Bytes
  unfolding show_int sorted_keys show_entries
  show_value (int n) = show_int n
  show_value (float f) = show_float f
  show_value (text s) = s
  show_value (bool true) = lit "true"
  show_value (bool false) = lit "false"
  show_value (labels ls) = lit "map[" ++ (show_entries (sorted_keys ls) ++ lit "]")

  pub to_float64 : Value → Float
  to_float64 (int n) = of_int n
  to_float64 (float f) = f
  to_float64 (text s) = (parse_float s).0
  to_float64 (bool b) = zero_float
  to_float64 (labels ls) = zero_float

  -- `cmpFloat` is -1, 0 or 1.
  unfoldable pub cmp_float : Value → Value → ℤ
  unfolding to_float64
  cmp_float a b =
      if lt_float (to_float64 a) (to_float64 b)
      then negsuc 0
      else if lt_float (to_float64 b) (to_float64 a)
      then pos 1
      else pos 0

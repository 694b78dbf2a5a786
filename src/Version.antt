-- ===== src/Version.antt =====
-- common/version/compare.go: the order of releases.
pub mod Order
pub mod Tests
use asika.Prelude.{
  ℕ, ◌+◌, Bool, true, false, not, ◌&&◌, ◌||◌, Option, none, some, List, [], ◌∷◌, Bytes, lit,
  text_eq, lex_lt, ltb, leb, ◌==◌, length, take, drop, contains, if◌then◌else◌,
}
use asika.Prelude.Int.{ℤ, pos, negsuc}
use asika.Queue.Expr.Values.{parse_int}
use asika.Queue.Expr.Scan.{index}

-- -1, 0 and +1.
pub data Comparison : Type 0 where
  older same newer : Comparison

-- `strings.Compare`
pub compare_texts : Bytes → Bytes → Comparison
compare_texts s t = if lex_lt s t then older else if lex_lt t s then newer else same

-- The map `suffixPriority`.
pub suffix_priority : Bytes → Option ℕ
suffix_priority s =
    if text_eq s (lit "HF")
    then some 4
    else if text_eq s (lit "CVE")
    then some 3
    else if text_eq s []
    then some 2
    else if text_eq s (lit "DEP")
    then some 1
    else if text_eq s (lit "DEV")
    then some 0
    else none

pub record Parsed : Type 0 where
  pub date : ℕ
  pub suffix : Bytes
  pub hash : Bytes
  pub dev : Bool

pub is_dev_build : Bytes → Bool
is_dev_build v = text_eq v (lit "dev") || contains v (lit "-")

-- `date < 10000000 || date > 99991231` is an error.
pub parse_date : Bytes → Option ℕ
parse_date v = elim (parse_int (take 8 v)) [
  | some (pos n) ↦ if leb 10000000 n && leb n 99991231 then some n else none
  | some (negsuc n) ↦ none
  | none ↦ none
]

-- The suffix and the hash behind the first hyphen.
pub split_hash : Bytes → Bytes × Bytes
split_hash rest = elim (index rest (lit "-")) [
  | some i ↦ (take i rest, drop (i + 1) rest)
  | none ↦ (rest, [])
]

-- The suffix must be in the map: "DEV" is, so the branch for an unknown "DEV" is dead.
pub parse_tail : ℕ → Bytes × Bytes → Option Parsed
parse_tail date (suffix, hash) = elim (suffix_priority suffix) [
  | none ↦ none
  | some p ↦
      some (record { date = date; suffix = suffix; hash = hash; dev = text_eq suffix (lit "DEV") })
]

pub parse_version : Bytes → Option Parsed
unfolding parse_date split_hash parse_tail
parse_version v =
    if text_eq v (lit "dev")
    then some (record { date = 0; suffix = []; hash = []; dev = true })
    else if ltb (length v) 8
    then none
    else elim (parse_date v) [ none ↦ none | some date ↦ parse_tail date (split_hash (drop 8 v)) ]

-- A missing key of the map reads as 0.
pub priority_of : Parsed → ℕ
priority_of p = elim (suffix_priority p.suffix) [ some n ↦ n | none ↦ 0 ]

pub compare_numbers : ℕ → ℕ → Comparison → Comparison
compare_numbers m n otherwise = if ltb m n then older else if ltb n m then newer else otherwise

pub compare_parsed : Parsed → Parsed → Comparison
unfolding compare_numbers compare_texts priority_of
compare_parsed a b =
    compare_numbers a.date b.date
      (compare_numbers (priority_of a) (priority_of b) (compare_texts a.hash b.hash))

pub compare_versions : Bytes → Bytes → Comparison
unfolding compare_parsed compare_texts
compare_versions a b = elim (parse_version a) [
  | none ↦ compare_texts a b
  | some va ↦ elim (parse_version b) [ none ↦ compare_texts a b | some vb ↦ compare_parsed va vb ]
]

pub is_newer : Comparison → Bool
is_newer newer = true
is_newer _ = false

pub is_upgradeable : Bytes → Bytes → Bool
unfolding is_newer compare_versions
is_upgradeable current latest =
    if text_eq latest []
    then false
    else if is_dev_build current
    then not (is_dev_build latest)
    else is_newer (compare_versions latest current)

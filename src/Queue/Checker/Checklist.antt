-- ===== src/Queue/Checker/Checklist.antt =====
-- `validateChecklist` of checker.go. The fixed pattern `(?m)^\s*[-*]\s+\[([ x])\]` is written out:
-- at the begin of a line, white space (line ends included), a bullet, white space, a box.
use asika.Prelude.{
  ℕ, zero, suc, Bool, true, false, not, ◌&&◌, ◌||◌, Option, none, some, List, [], ◌∷◌, Bytes, ◌==◌,
  length, count, if◌then◌else◌,
}

-- `\s` of RE2.
is_blank : ℕ → Bool
is_blank c = c == 32 || c == 9 || c == 10 || c == 12 || c == 13

skip_blanks : Bytes → Bytes
unfolding is_blank
skip_blanks [] = []
skip_blanks (c ∷ s) = let rest = skip_blanks s in if is_blank c then rest else c ∷ s

-- `[([ x])\]`: the mark in the box, and the text behind it.
match_box : Bytes → Option (ℕ × Bytes)
match_box (a ∷ mark ∷ z ∷ s) =
    if a == b'[' && (mark == 32 || mark == b'x') && z == b']' then some (mark, s) else none
match_box _ = none

-- `\s+` and a box.
match_gap : Bytes → Option (ℕ × Bytes)
unfolding is_blank skip_blanks match_box
match_gap [] = none
match_gap (c ∷ s) = if is_blank c then match_box (skip_blanks s) else none

match_bullet : Bytes → Option (ℕ × Bytes)
unfolding match_gap
match_bullet [] = none
match_bullet (c ∷ s) = if c == b'-' || c == b'*' then match_gap s else none

match_item : Bytes → Option (ℕ × Bytes)
unfolding match_bullet skip_blanks
match_item s = match_bullet (skip_blanks s)

-- The marks that `FindAllStringSubmatch` finds, from a position that begins a line or not. Fuel:
-- each round takes at least one byte.
find_marks : ℕ → Bool → Bytes → List ℕ
find_marks zero begins s = []
find_marks (suc fuel) begins [] = []
find_marks (suc fuel) begins (c ∷ s) =
    let skip = find_marks fuel (c == 10) s in
    if begins
    then elim (match_item (c ∷ s)) [
      | none ↦ skip
      | some (mark, rest) ↦ mark ∷ find_marks fuel false rest
    ]
    else skip

pub record Checklist : Type 0 where
  pub complete : Bool
  pub total : ℕ
  pub unchecked : ℕ

is_unchecked : ℕ → Bool
is_unchecked mark = not (mark == b'x') && not (mark == b'X')

tally : List ℕ → Checklist
unfolding is_unchecked
tally marks =
    let unchecked = count is_unchecked marks in
    record { complete = unchecked == 0; total = length marks; unchecked = unchecked }

unfoldable pub validate_checklist : Bytes → Checklist
unfolding find_marks match_item tally
validate_checklist body = tally (find_marks (suc (length body)) true body)

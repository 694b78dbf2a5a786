-- ===== src/Queue/Expr/Scan.antt =====
-- The text searches of expr.go.
use asika.Prelude.{
  ℕ, zero, suc, ◌-◌, ◌<◌, ◌≡◌, Bool, true, false, Option, none, some, [], ◌∷◌, Bytes, has_prefix,
  to_upper, is_empty, length, drop, ◌==◌, ◌&&◌, ◌||◌, if◌then◌else◌, arith,
}
use asika.Prelude.Int.{ℤ, pos, negsuc, eq_int}

-- `strings.Index(s, p)`; `none` is -1.
unfoldable pub index : Bytes → Bytes → Option ℕ
index [] p = if has_prefix [] p then some 0 else none
index (c ∷ s) p =
    let rest = index s p in
    if has_prefix (c ∷ s) p then some 0 else elim rest [ none ↦ none | some i ↦ some (suc i) ]

-- `depth++` and `depth--`; an unmatched bracket takes the depth below 0.
deeper : ℤ → ℤ
deeper (pos n) = pos (suc n)
deeper (negsuc zero) = pos zero
deeper (negsuc (suc n)) = negsuc n

shallower : ℤ → ℤ
shallower (pos zero) = negsuc zero
shallower (pos (suc n)) = pos n
shallower (negsuc n) = negsuc (suc n)

depth_after : ℕ → ℤ → ℤ
unfolding deeper shallower
depth_after c depth =
    if c == b'(' then deeper depth else if c == b')' then shallower depth else depth

-- The byte is a space, or there is none: the text begins or ends here.
abbrev is_gap : Option ℕ → Bool
is_gap none = true
is_gap (some c) = c == b' '

abbrev head? : Bytes → Option ℕ
head? [] = none
head? (c ∷ s) = some c

-- The loop of `findOperator` from the position whose text is the last argument.
find_from : Bytes → ℤ → Option ℕ → Bytes → Option ℕ
unfolding depth_after
find_from op depth before [] = none
find_from op depth before (c ∷ s) =
    let rest = find_from op (depth_after c depth) (some c) s in
    let later : Option ℕ = elim rest [ none ↦ none | some i ↦ some (suc i) ] in
    if c == b'(' || c == b')'
    then later
    else if eq_int depth (pos 0)
        && has_prefix (to_upper (c ∷ s)) op
        && is_gap before
        && is_gap (head? (drop (length op) (c ∷ s)))
    then some 0
    else later

-- The first position outside brackets at which the word `op` stands.
unfoldable pub find_operator : Bytes → Bytes → Option ℕ
unfolding find_from
find_operator expr op = find_from op (pos 0) none expr

find_from-lt :
    (op : Bytes) (depth : ℤ) (before : Option ℕ) (s : Bytes) (i : ℕ)
    → find_from op depth before s ≡ some i
    → i < length s
unfolding find_from
find_from-lt op depth before [] i h = ground arith
find_from-lt op depth before (c ∷ s) zero h = omega arith
find_from-lt op depth before (c ∷ s) (suc i) h =
    ground (arith, find_from-lt op (depth_after c depth) (some c) s i)

pub find_operator-lt : (expr op : Bytes) (i : ℕ) → find_operator expr op ≡ some i → i < length expr
unfolding find_operator
find_operator-lt expr op i h = find_from-lt op (pos 0) none expr i h

-- The bracket that is open at `depth` closes at the very end of the text.
closes_at_end : ℕ → Bytes → Bool
closes_at_end depth [] = false
closes_at_end depth (c ∷ s) =
    let depth' = if c == b'(' then suc depth else if c == b')' then depth - 1 else depth in
    let rest = closes_at_end depth' s in if depth' == 0 then is_empty s else rest

-- The first loop of `evalExpr`: the text is one bracket around the rest.
unfoldable pub is_wrapped : Bytes → Bool
unfolding closes_at_end
is_wrapped [] = false
is_wrapped (c ∷ s) = c == b'(' && closes_at_end 0 (c ∷ s)

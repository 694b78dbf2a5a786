-- ===== src/Version/Order.antt =====
-- The laws of the comparison of versions.
use asika.Prelude.{
  ◌≡◌, ◌≢◌, refl, inl, inr, true, false, none, [], ◌∷◌, Bytes, lex_lt, arith, Option-cases,
}
use asika.Version.{
  Comparison, older, same, newer, compare_texts, Parsed, compare_numbers, compare_parsed,
  parse_version, compare_versions, is_newer, is_upgradeable, is_dev_build,
}

lex_lt_asym : (s t : Bytes) → lex_lt s t ≡ true → lex_lt t s ≡ false
unfolding lex_lt
lex_lt_asym [] [] h = cc
lex_lt_asym [] (d ∷ t) h = refl
lex_lt_asym (c ∷ s) [] h = cc
lex_lt_asym (c ∷ s) (d ∷ t) h = ground (arith, h, lex_lt_asym s t)

lex_lt_trans : (s t u : Bytes) → lex_lt s t ≡ true → lex_lt t u ≡ true → lex_lt s u ≡ true
unfolding lex_lt
lex_lt_trans s t [] h k = ground (arith, k)
lex_lt_trans [] t (e ∷ u) h k = refl
lex_lt_trans (c ∷ s) [] (e ∷ u) h k = ground (arith, h)
lex_lt_trans (c ∷ s) (d ∷ t) (e ∷ u) h k = ground (arith, h, k, lex_lt_trans s t u)

abbrev pub opposite : Comparison → Comparison
opposite older = newer
opposite same = same
opposite newer = older

compare_texts_swap : (s t : Bytes) → compare_texts t s ≡ opposite (compare_texts s t)
unfolding compare_texts
compare_texts_swap s t = ground (arith, lex_lt_asym s t, lex_lt_asym t s)

compare_parsed_swap : (a b : Parsed) → compare_parsed b a ≡ opposite (compare_parsed a b)
unfolding compare_parsed compare_numbers
compare_parsed_swap a b = ground (arith, compare_texts_swap a.hash b.hash)

-- Swapping two versions turns -1 into +1 and back, whatever the two texts are.
pub compare_versions_swap : (a b : Bytes) → compare_versions b a ≡ opposite (compare_versions a b)
unfolding compare_versions
compare_versions_swap a b = elim (Option-cases (parse_version a)) [
  | inl h ↦ ground (arith, h, compare_texts_swap a b)
  | inr (va, h) ↦ elim (Option-cases (parse_version b)) [
    | inl k ↦ ground (arith, h, k, compare_texts_swap a b)
    | inr (vb, k) ↦ ground (arith, h, k, compare_parsed_swap va vb)
  ]
]

compare_texts_trans :
    (s t u : Bytes)
    → compare_texts s t ≡ older
    → compare_texts t u ≡ older
    → compare_texts s u ≡ older
unfolding compare_texts
compare_texts_trans s t u h k = ground (arith, h, k, lex_lt_trans s t u)

compare_parsed_trans :
    (a b c : Parsed)
    → compare_parsed a b ≡ older
    → compare_parsed b c ≡ older
    → compare_parsed a c ≡ older
unfolding compare_parsed compare_numbers
compare_parsed_trans a b c h k = ground (arith, h, k, compare_texts_trans a.hash b.hash c.hash)

-- Among versions that follow the grammar, an older one than an older one is older.
pub compare_versions_trans :
    (a b c : Bytes)
    → parse_version a ≢ none
    → parse_version b ≢ none
    → parse_version c ≢ none
    → compare_versions a b ≡ older
    → compare_versions b c ≡ older
    → compare_versions a c ≡ older
unfolding compare_versions
compare_versions_trans a b c pa pb pc h k = elim (Option-cases (parse_version a)) [
  | inl e ↦ absurd (pa e)
  | inr (va, e) ↦ elim (Option-cases (parse_version b)) [
    | inl f ↦ absurd (pb f)
    | inr (vb, f) ↦ elim (Option-cases (parse_version c)) [
      | inl g ↦ absurd (pc g)
      | inr (vc, g) ↦ ground (arith, e, f, g, h, k, compare_parsed_trans va vb vc)
    ]
  ]
]

-- Of two versions that are no development builds, at most one is an upgrade of the other.
pub is_upgradeable_asym :
    (a b : Bytes)
    → is_dev_build a ≡ false
    → is_dev_build b ≡ false
    → is_upgradeable a b ≡ true
    → is_upgradeable b a ≡ false
unfolding is_upgradeable is_newer
is_upgradeable_asym a b da db h = ground (arith, da, db, h, compare_versions_swap a b)

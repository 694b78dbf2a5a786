-- ===== src/Labeler/Patterns.antt =====
-- `matchSinglePattern` of labeler.go and its cache, a list of compiled patterns with the one that
-- was used last in front. The map from patterns to list elements holds the same entries.
use asika.Prelude.{
  ℕ, ◌≤◌, ◌<◌, ◌≡◌, refl, Bool, true, false, ◌&&◌, none, some, List, [], ◌∷◌, Bytes, text_eq,
  text_eq_iff, leb, length, if◌then◌else◌, arith, Bool-cases, Option-cases, inl, inr,
}
use asika.Db.{lookup, remove}
use asika.Db.Laws.{lookup-remove}
use asika.Queue.World.{World}
use asika.Queue.Checker.Pattern.{has_glob, matches_regex, match_pattern}

abbrev Regex : Type 0
Regex = Bytes → Bool

abbrev pub Cache : Type 0
Cache = List (Bytes × Regex)

abbrev pub max_compiled_patterns : ℕ
max_compiled_patterns = 1000

-- `Remove(Back())`
pub drop_oldest : Cache → Cache
drop_oldest [] = []
drop_oldest (e ∷ []) = []
drop_oldest (e ∷ f ∷ cache) = e ∷ drop_oldest (f ∷ cache)

unfoldable pub make_room : Cache → Cache
unfolding drop_oldest
make_room cache = if leb max_compiled_patterns (length cache) then drop_oldest cache else cache

unfoldable pub compile_pattern : World → Cache → Bytes → Bytes → Bool × Cache
unfolding make_room
compile_pattern w cache pattern file = elim (w.regex pattern) [
  | none ↦ (false, cache)
  | some re ↦ (re file, (pattern, re) ∷ make_room cache)
]

unfoldable pub match_regex : World → Cache → Bytes → Bytes → Bool × Cache
unfolding compile_pattern
match_regex w cache pattern file = elim (lookup pattern cache) [
  | some re ↦ (re file, (pattern, re) ∷ remove pattern cache)
  | none ↦ compile_pattern w cache pattern file
]

unfoldable pub match_single_pattern : World → Cache → Bytes → Bytes → Bool × Cache
unfolding match_regex
match_single_pattern w cache pattern file =
    if has_glob pattern && w.path_match pattern file
    then (true, cache)
    else match_regex w cache pattern file

-- Every cached pattern is the compiled one of its key, and there are at most 1000.
pub record IsSound (w : World) (cache : Cache) : Type 0 where
  pub coherent : (k : Bytes) (re : Regex) → lookup k cache ≡ some re → w.regex k ≡ some re
  pub bound : length cache ≤ max_compiled_patterns

lookup-drop_oldest :
    (k : Bytes) (re : Regex) (cache : Cache)
    → lookup k (drop_oldest cache) ≡ some re
    → lookup k cache ≡ some re
unfolding drop_oldest lookup
lookup-drop_oldest k re [] h = h
lookup-drop_oldest k re (e ∷ []) h = cc
lookup-drop_oldest k re ((j, v) ∷ f ∷ cache) h =
    ground (arith, h, lookup-drop_oldest k re (f ∷ cache))

length-drop_oldest :
    (e : Bytes × Regex) (cache : Cache) → length (drop_oldest (e ∷ cache)) ≡ length cache
unfolding drop_oldest
length-drop_oldest e [] = refl
length-drop_oldest e (f ∷ cache) = omega (arith, length-drop_oldest f cache)

length-make_room :
    (cache : Cache)
    → length cache ≤ max_compiled_patterns
    → length (make_room cache) < max_compiled_patterns
unfolding make_room drop_oldest
length-make_room [] h = omega arith
length-make_room (e ∷ cache) h = ground (arith, h, length-drop_oldest e cache)

length-remove_le : (k : Bytes) (cache : Cache) → length (remove k cache) ≤ length cache
unfolding remove
length-remove_le k [] = omega arith
length-remove_le k ((j, v) ∷ cache) = ground (arith, length-remove_le k cache)

length-remove :
    (k : Bytes) (re : Regex) (cache : Cache)
    → lookup k cache ≡ some re
    → length (remove k cache) < length cache
unfolding remove lookup
length-remove k re [] h = cc
length-remove k re ((j, v) ∷ cache) h =
    ground (arith, h, length-remove k re cache, length-remove_le k cache)

-- A compiled pattern put in front of a part of the cache.
cons-IsSound :
    (w : World) (pattern : Bytes) (re : Regex) (cache rest : Cache)
    → IsSound w cache
    → w.regex pattern ≡ some re
    → ((k : Bytes) (v : Regex) → lookup k rest ≡ some v → lookup k cache ≡ some v)
    → length rest < max_compiled_patterns
    → IsSound w ((pattern, re) ∷ rest)
unfolding lookup
cons-IsSound w pattern re cache rest h compiled kept small = record {
  coherent = λ k v e. elim (Bool-cases (text_eq pattern k)) [
    | inl s ↦ ground (arith, e, s, compiled, text_eq_iff pattern k)
    | inr s ↦ h.coherent k v (kept k v (ground (arith, e, s)))
  ];
  bound = omega (arith, small);
}

pub Answers : World → Bytes → Bytes → Bool × Cache → Type 0
Answers w pattern file (answer, cache) =
    (answer ≡ matches_regex (w.regex pattern) file) × IsSound w cache

compile_pattern_sound :
    (w : World) (cache : Cache) (pattern file : Bytes)
    → IsSound w cache
    → Answers w pattern file (compile_pattern w cache pattern file)
unfolding compile_pattern make_room matches_regex Answers
compile_pattern_sound w cache pattern file h = elim (Option-cases (w.regex pattern)) [
  | inl e ↦ rw (e, compile_pattern, Answers) (refl, h)
  | inr (re, e) ↦
      rw (e, compile_pattern, Answers)
        (
          refl,
          cons-IsSound w pattern re cache (make_room cache) h e
              (λ k v f. ground (arith, f, lookup-drop_oldest k v cache))
              (length-make_room cache h.bound),
        )
]

match_regex_sound :
    (w : World) (cache : Cache) (pattern file : Bytes)
    → IsSound w cache
    → Answers w pattern file (match_regex w cache pattern file)
unfolding match_regex matches_regex Answers
match_regex_sound w cache pattern file h = elim (Option-cases (lookup pattern cache)) [
  | inl e ↦ rw (e, match_regex) (compile_pattern_sound w cache pattern file h)
  | inr (re, e) ↦
      let compiled = h.coherent pattern re e in
      rw (e, match_regex, Answers)
        (
          rw (compiled) refl,
          cons-IsSound w pattern re cache (remove pattern cache) h compiled
              (λ k v f. ground (arith, f, lookup-remove pattern k cache))
              (omega (arith, length-remove pattern re cache e, h.bound)),
        )
]

-- On a sound cache the answer is the one with no cache, and the cache stays sound.
pub match_single_pattern-IsSound :
    (w : World) (cache : Cache) (pattern file : Bytes)
    → IsSound w cache
    → ((match_single_pattern w cache pattern file).0 ≡ match_pattern w pattern file)
      × IsSound w (match_single_pattern w cache pattern file).1
unfolding match_single_pattern match_pattern Answers
match_single_pattern-IsSound w cache pattern file h =
    let answers = match_regex_sound w cache pattern file h in
    elim (Bool-cases (has_glob pattern && w.path_match pattern file)) [
      | inl e ↦ rw (e, match_single_pattern, match_pattern) (refl, h)
      | inr e ↦ rw (e, match_single_pattern, match_pattern) answers
    ]

-- ===== src/Queue/Checker/Pattern.antt =====
-- `matchSinglePattern` of checker.go and its cache of compiled patterns, a package variable.
use asika.Prelude.{
  ◌/◌, ◌≡◌, refl, Bool, true, false, ◌&&◌, ◌||◌, Option, none, some, List, Bytes, ltb, length, take,
  any, ◌==◌, if◌then◌else◌, arith, Bool-cases, Option-cases, inl, inr, text_eq_iff,
}
use asika.Db.{lookup, insert, remove_all}
use asika.Db.Laws.{lookup-insert, lookup-remove_all}
use asika.Queue.World.{World}

abbrev Regex : Type 0
Regex = Bytes → Bool

abbrev pub Cache : Type 0
Cache = List (Bytes × Regex)

-- `strings.ContainsAny(pattern, "*?[")`
unfoldable pub has_glob : Bytes → Bool
has_glob = any (λ c. c == b'*' || c == b'?' || c == b'[')

unfoldable pub matches_regex : Option Regex → Bytes → Bool
matches_regex none file = false
matches_regex (some re) file = re file

-- The answer with no cache.
unfoldable pub match_pattern : World → Bytes → Bytes → Bool
match_pattern w pattern file =
    has_glob pattern && w.path_match pattern file || matches_regex (w.regex pattern) file

-- Past 1000 patterns half of the keys go, in the order in which Go's map lists them.
module _ (w : World) (order : Cache → List Bytes) where
  make_room : Cache → Cache
  make_room cache =
      let listed = order cache in
      if ltb 1000 (length cache) then remove_all (take (length listed / 2) listed) cache else cache

  compile_pattern : Cache → Bytes → Bytes → Bool × Cache
  compile_pattern cache pattern file = elim (w.regex pattern) [
    | none ↦ (false, cache)
    | some re ↦ (re file, insert pattern re (make_room cache))
  ]

  match_regex : Cache → Bytes → Bytes → Bool × Cache
  match_regex cache pattern file = elim (lookup pattern cache) [
    | some re ↦ (re file, cache)
    | none ↦ compile_pattern cache pattern file
  ]

  pub match_single_pattern : Cache → Bytes → Bytes → Bool × Cache
  match_single_pattern cache pattern file =
      if has_glob pattern && w.path_match pattern file
      then (true, cache)
      else match_regex cache pattern file

  -- Every cached pattern is the compiled one of its key.
  abbrev pub IsCoherent : Cache → Type 0
  IsCoherent cache = (k : Bytes) (re : Regex) → lookup k cache ≡ some re → w.regex k ≡ some re

  make_room-IsCoherent : (cache : Cache) → IsCoherent cache → IsCoherent (make_room cache)
  unfolding make_room
  make_room-IsCoherent cache h k re e =
      ground
        (arith, h k re, lookup-remove_all (take (length (order cache) / 2) (order cache)) k cache)

  insert-IsCoherent :
      (cache : Cache) (pattern : Bytes) (re : Regex)
      → IsCoherent cache
      → w.regex pattern ≡ some re
      → IsCoherent (insert pattern re cache)
  insert-IsCoherent cache pattern re h c k re' e =
      ground (arith, text_eq_iff pattern k, lookup-insert pattern k re cache, h k re')

  compile_pattern_lem :
      (cache : Cache) (pattern file : Bytes)
      → IsCoherent cache
      → ((compile_pattern cache pattern file).0 ≡ matches_regex (w.regex pattern) file)
        × IsCoherent (compile_pattern cache pattern file).1
  unfolding compile_pattern matches_regex
  compile_pattern_lem cache pattern file h = elim (Option-cases (w.regex pattern)) [
    | inl e ↦ rw (e, compile_pattern) (refl, h)
    | inr (re, e) ↦
        rw (e, compile_pattern)
          (refl, insert-IsCoherent (make_room cache) pattern re (make_room-IsCoherent cache h) e)
  ]

  match_regex_lem :
      (cache : Cache) (pattern file : Bytes)
      → IsCoherent cache
      → ((match_regex cache pattern file).0 ≡ matches_regex (w.regex pattern) file)
        × IsCoherent (match_regex cache pattern file).1
  unfolding match_regex matches_regex
  match_regex_lem cache pattern file h = elim (Option-cases (lookup pattern cache)) [
    | inl e ↦ rw (e, match_regex) (compile_pattern_lem cache pattern file h)
    | inr (re, e) ↦ rw (e, h pattern re e, match_regex) (refl, h)
  ]

  -- From a coherent cache, a match answers as it would with no cache at all, and leaves a coherent
  -- cache, whichever patterns the eviction drops.
  pub match_single_pattern_lem :
      (cache : Cache) (pattern file : Bytes)
      → IsCoherent cache
      → ((match_single_pattern cache pattern file).0 ≡ match_pattern w pattern file)
        × IsCoherent (match_single_pattern cache pattern file).1
  unfolding match_single_pattern match_pattern
  match_single_pattern_lem cache pattern file h =
      elim (Bool-cases (has_glob pattern && w.path_match pattern file)) [
        | inl e ↦ rw e (refl, h)
        | inr e ↦ rw e (match_regex_lem cache pattern file h)
      ]

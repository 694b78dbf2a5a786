-- ===== src/Version/Tests.antt =====
-- Runs of the comparison of versions.
use asika.Prelude.{◌≡◌, ◌≢◌, refl, true, false, none, lit, text_eq, lex_lt, has_prefix, contains}
use asika.Queue.Expr.Values.{parse_int}
use asika.Queue.Expr.Scan.{index}
use asika.Version.{
  older, newer, compare_texts, suffix_priority, is_dev_build, parse_date, split_hash, parse_tail,
  parse_version, priority_of, compare_numbers, compare_parsed, compare_versions, is_newer,
  is_upgradeable,
}
use asika.Version.Order.{
  opposite, compare_versions_swap, compare_versions_trans, is_upgradeable_asym,
}

-- A hotfix is newer than the plain release of its day, which is newer than a dependency update.
ranks :
    (compare_versions (lit "20240101HF") (lit "20240101") ≡ newer)
    × (compare_versions (lit "20240101DEP") (lit "20240101") ≡ older)
    × (compare_versions (lit "20240102DEV-ab") (lit "20240101HF") ≡ newer)
unfolding compare_versions compare_parsed compare_numbers priority_of parse_version parse_tail
    split_hash parse_date suffix_priority compare_texts parse_int index lit text_eq lex_lt
    has_prefix
ranks = (refl, refl, refl)

-- "20240101D" does not follow the grammar, and its order as a text closes a cycle.
cycle :
    (compare_versions (lit "20240101DEV-a") (lit "20240101CVE") ≡ older)
    × (compare_versions (lit "20240101CVE") (lit "20240101D") ≡ older)
    × (compare_versions (lit "20240101D") (lit "20240101DEV-a") ≡ older)
unfolding compare_versions compare_parsed compare_numbers priority_of parse_version parse_tail
    split_hash parse_date suffix_priority compare_texts parse_int index lit text_eq lex_lt
    has_prefix
cycle = (refl, refl, refl)

-- A release takes a later development build for an upgrade, and that build the release.
to_and_fro :
    (is_upgradeable (lit "20240101") (lit "20240102DEV-ab") ≡ true)
    × (is_upgradeable (lit "20240102DEV-ab") (lit "20240101") ≡ true)
unfolding is_upgradeable is_newer is_dev_build compare_versions compare_parsed compare_numbers
    priority_of parse_version parse_tail split_hash parse_date suffix_priority compare_texts
    parse_int index lit text_eq lex_lt has_prefix contains
to_and_fro = (refl, refl)

compare_versions_swap_example :
    compare_versions (lit "20240101D") (lit "20240101CVE")
    ≡ opposite (compare_versions (lit "20240101CVE") (lit "20240101D"))
compare_versions_swap_example = compare_versions_swap (lit "20240101CVE") (lit "20240101D")

dep_parses : parse_version (lit "20240101DEP") ≢ none
unfolding parse_version parse_tail split_hash parse_date suffix_priority parse_int index lit text_eq
    has_prefix
dep_parses h = cc

plain_parses : parse_version (lit "20240101") ≢ none
unfolding parse_version parse_tail split_hash parse_date suffix_priority parse_int index lit text_eq
    has_prefix
plain_parses h = cc

fix_parses : parse_version (lit "20240101HF") ≢ none
unfolding parse_version parse_tail split_hash parse_date suffix_priority parse_int index lit text_eq
    has_prefix
fix_parses h = cc

dep_older :
    (compare_versions (lit "20240101DEP") (lit "20240101") ≡ older)
    × (compare_versions (lit "20240101") (lit "20240101HF") ≡ older)
unfolding compare_versions compare_parsed compare_numbers priority_of parse_version parse_tail
    split_hash parse_date suffix_priority compare_texts parse_int index lit text_eq lex_lt
    has_prefix
dep_older = (refl, refl)

compare_versions_trans_example : compare_versions (lit "20240101DEP") (lit "20240101HF") ≡ older
compare_versions_trans_example =
    compare_versions_trans (lit "20240101DEP") (lit "20240101") (lit "20240101HF") dep_parses
      plain_parses fix_parses dep_older.0 dep_older.1

releases :
    (is_dev_build (lit "20240101") ≡ false)
    × (is_dev_build (lit "20240101HF") ≡ false)
    × (is_upgradeable (lit "20240101") (lit "20240101HF") ≡ true)
unfolding is_upgradeable is_newer is_dev_build compare_versions compare_parsed compare_numbers
    priority_of parse_version parse_tail split_hash parse_date suffix_priority compare_texts
    parse_int index lit text_eq lex_lt has_prefix contains
releases = (refl, refl, refl)

is_upgradeable_asym_example : is_upgradeable (lit "20240101HF") (lit "20240101") ≡ false
is_upgradeable_asym_example =
    is_upgradeable_asym (lit "20240101") (lit "20240101HF") releases.0 releases.1 releases.2

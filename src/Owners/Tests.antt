-- ===== src/Owners/Tests.antt =====
-- Runs of the owners of a file; a pattern matches its own text only.
use asika.Prelude.{◌≡◌, ◌⊎◌, refl, false, [], ◌∷◌, lit, Bytes, text_eq, has_prefix, trim_space}
use asika.Owners.{
  parse_code_owners, match_owners, match_from, match_code_owners_pattern, match_suffix, parse_lines,
  parse_line, lines, cons_first, fields, not_empty, parts, is_blank, entry_of, priority_of,
  sort_entries, insert_entry, is_put_first,
}
use asika.Owners.Longest.{NoneMatches, IsLongest, match_owners-IsLongest}

abbrev two_lines : Bytes
two_lines = lit "/src/main.go @alice\nmain.go @bob"

-- The last line of the file matches too, but its pattern is shorter.
first_line_wins :
    match_owners text_eq (parse_code_owners (λ f e. false) two_lines) (lit "src/main.go")
    ≡ lit "@alice" ∷ []
unfolding parse_code_owners match_owners match_from match_code_owners_pattern match_suffix
    parse_lines parse_line lines cons_first fields not_empty parts is_blank entry_of priority_of
    sort_entries insert_entry is_put_first lit text_eq has_prefix trim_space
first_line_wins = refl

match_owners-IsLongest_example :
    (NoneMatches text_eq (lit "src/main.go") (parse_code_owners (λ f e. false) two_lines)
      × (match_owners text_eq (parse_code_owners (λ f e. false) two_lines) (lit "src/main.go")
          ≡ []))
    ⊎ IsLongest text_eq
        (lit "src/main.go")
        (parse_code_owners (λ f e. false) two_lines)
        (match_owners text_eq (parse_code_owners (λ f e. false) two_lines) (lit "src/main.go"))
match_owners-IsLongest_example =
    match_owners-IsLongest (λ f e. false) text_eq two_lines (lit "src/main.go")

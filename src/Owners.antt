-- ===== src/Owners.antt =====
-- daemon/reviewer/codeowners.go: the owners of changed files. `path.Match` is a parameter, and
-- so is what `sort.Slice` does with equal priorities. Spaces are ASCII.
pub mod Longest
pub mod Tests
use asika.Prelude.{
  ℕ, zero, suc, ◌==◌, Bool, true, false, not, ◌&&◌, ◌||◌, Option, none, some, List, [], ◌∷◌, ◌++◌,
  Bytes, lit, text_eq, is_empty, has_prefix, trim_space, length, drop, ltb, leb, if◌then◌else◌,
}

pub record Entry : Type 0 where
  pub pattern : Bytes
  pub owners : List Bytes
  pub priority : ℕ

unfoldable pub cons_first : ℕ → List Bytes → List Bytes
cons_first c [] = (c ∷ []) ∷ []
cons_first c (part ∷ parts) = (c ∷ part) ∷ parts

-- `strings.Split(content, "\n")`
pub lines : Bytes → List Bytes
unfolding cons_first
lines [] = [] ∷ []
lines (c ∷ s) = let rest = lines s in if c == 10 then [] ∷ rest else cons_first c rest

unfoldable pub is_blank : ℕ → Bool
is_blank c = c == 32 || (leb 9 c && leb c 13)

-- `strings.Split` at blanks; the empty parts are dropped by `fields`.
pub parts : Bytes → List Bytes
unfolding cons_first is_blank
parts [] = [] ∷ []
parts (c ∷ s) = let rest = parts s in if is_blank c then [] ∷ rest else cons_first c rest

pub not_empty : List Bytes → List Bytes
not_empty [] = []
not_empty (s ∷ ss) = let rest = not_empty ss in if is_empty s then rest else s ∷ rest

-- `strings.Fields`
pub fields : Bytes → List Bytes
unfolding parts not_empty
fields s = not_empty (parts s)

-- `len(strings.ReplaceAll(pattern, "/", ""))`
unfoldable pub priority_of : Bytes → ℕ
priority_of [] = 0
priority_of (c ∷ s) = let rest = priority_of s in if c == b'/' then rest else suc rest

pub entry_of : List Bytes → Option Entry
unfolding priority_of
entry_of [] = none
entry_of (pattern ∷ []) = none
entry_of (pattern ∷ owner ∷ owners) =
    some (record { pattern = pattern; owners = owner ∷ owners; priority = priority_of pattern })

pub parse_line : Bytes → Option Entry
unfolding entry_of fields
parse_line line =
    let trimmed = trim_space line in
    if is_empty trimmed || has_prefix trimmed (lit "#") then none else entry_of (fields trimmed)

pub parse_lines : List Bytes → List Entry
unfolding parse_line
parse_lines [] = []
parse_lines (line ∷ ls) =
    let rest = parse_lines ls in elim (parse_line line) [ none ↦ rest | some e ↦ e ∷ rest ]

-- Whether `sort.Slice` puts the first of two entries of equal priority in front.
module _ (tie : Entry → Entry → Bool) where
  pub is_put_first : Entry → Entry → Bool
  is_put_first f e = ltb f.priority e.priority || (not (ltb e.priority f.priority) && tie f e)

  pub insert_entry : Entry → List Entry → List Entry
  unfolding is_put_first
  insert_entry e [] = e ∷ []
  insert_entry e (f ∷ rest) = if is_put_first f e then f ∷ insert_entry e rest else e ∷ f ∷ rest

  pub sort_entries : List Entry → List Entry
  unfolding insert_entry
  sort_entries [] = []
  sort_entries (e ∷ rest) = insert_entry e (sort_entries rest)

  pub parse_code_owners : Bytes → List Entry
  unfolding lines parse_lines sort_entries
  parse_code_owners content = sort_entries (parse_lines (lines content))

module _ (path_match : Bytes → Bytes → Bool) where
  -- The suffixes of the path, and what is behind each slash.
  pub match_suffix : Bytes → Bytes → Bool
  match_suffix pattern [] = path_match pattern []
  match_suffix pattern (c ∷ s) =
      path_match pattern (c ∷ s) || ((c == b'/' && path_match pattern s) || match_suffix pattern s)

  pub match_code_owners_pattern : Bytes → Bytes → Bool
  unfolding match_suffix
  match_code_owners_pattern pattern path =
      if has_prefix pattern (lit "/")
      then path_match (drop 1 pattern) path
      else path_match pattern path || match_suffix pattern path

  -- The last entry that matches.
  pub match_from : List Bytes → List Entry → Bytes → List Bytes
  unfolding match_code_owners_pattern
  match_from owners [] path = owners
  match_from owners (e ∷ entries) path =
      match_from (if match_code_owners_pattern e.pattern path then e.owners else owners) entries
        path

  pub match_owners : List Entry → Bytes → List Bytes
  unfolding match_from
  match_owners entries path = match_from [] entries path

  pub is_seen : Bytes → List Bytes → Bool
  is_seen owner [] = false
  is_seen owner (o ∷ os) = text_eq o owner || is_seen owner os

  pub add_owners : List Bytes → List Bytes → List Bytes
  unfolding is_seen
  add_owners owners [] = owners
  add_owners owners (o ∷ os) = add_owners (if is_seen o owners then owners else owners ++ o ∷ []) os

  -- Every owner once, in the order of the files.
  pub match_files : List Entry → List Bytes → List Bytes → List Bytes
  unfolding add_owners match_owners
  match_files entries owners [] = owners
  match_files entries owners (f ∷ files) =
      match_files entries (add_owners owners (match_owners entries f)) files

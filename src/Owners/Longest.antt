-- ===== src/Owners/Longest.antt =====
-- Which entry decides on the owners of a file.
use mathlib.Core.Path.{subst}
use asika.Prelude.{
  ℕ, ◌≤◌, ◌≡◌, ◌⊎◌, refl, inl, inr, Bool, true, false, List, [], ◌∷◌, Bytes, All, ltb, arith,
  Bool-cases, ◌==◌, length, none, some, Option, Option-cases, if◌then◌else◌, is_empty, ◌||◌,
  has_prefix, lit, trim_space,
}
use asika.Owners.{
  Entry, parse_lines, parse_line, entry_of, fields, lines, priority_of, is_put_first, insert_entry,
  sort_entries, parse_code_owners, match_code_owners_pattern, match_from, match_owners,
}

-- The bytes of a text that are no slashes.
abbrev pub without_slashes : Bytes → Bytes
without_slashes [] = []
without_slashes (c ∷ s) = if c == b'/' then without_slashes s else c ∷ without_slashes s

-- The length of the pattern without its slashes.
abbrev pub size : Entry → ℕ
size e = length (without_slashes e.pattern)

priority_of-size : (s : Bytes) → priority_of s ≡ length (without_slashes s)
unfolding priority_of
priority_of-size [] = refl
priority_of-size (c ∷ s) = elim (Bool-cases (c == b'/')) [
  | inl k ↦ simp (k, priority_of, priority_of-size s)
  | inr k ↦ simp (k, priority_of, priority_of-size s)
]

-- The priority of every entry is the size of its pattern.
abbrev IsMeasured : List Entry → Type 0
IsMeasured entries = All (λ e. e.priority ≡ size e) entries

abbrev IsFit : Option Entry → Type 0
IsFit none = Unit
IsFit (some e) = e.priority ≡ size e

-- A line gives no entry, or one with its priority.
entry_of-IsMeasured :
    (words : List Bytes) (e : Entry) → entry_of words ≡ some e → e.priority ≡ size e
unfolding entry_of
entry_of-IsMeasured [] e h = cc
entry_of-IsMeasured (pattern ∷ []) e h = cc
entry_of-IsMeasured (pattern ∷ owner ∷ owners) e h = subst IsFit h (priority_of-size pattern)

parse_line-IsMeasured : (line : Bytes) (e : Entry) → parse_line line ≡ some e → e.priority ≡ size e
unfolding parse_line
parse_line-IsMeasured line e h =
    elim (Bool-cases (is_empty (trim_space line) || has_prefix (trim_space line) (lit "#"))) [
      | inl k ↦ ground (arith, h, k)
      | inr k ↦ entry_of-IsMeasured (fields (trim_space line)) e (rw (k, parse_line) at h)
    ]

parse_lines-IsMeasured : (ls : List Bytes) → IsMeasured (parse_lines ls)
unfolding parse_lines
parse_lines-IsMeasured [] = tt
parse_lines-IsMeasured (line ∷ ls) = elim (Option-cases (parse_line line)) [
  | inl k ↦ rw (k, parse_lines) (parse_lines-IsMeasured ls)
  | inr (e, k) ↦ rw (k, parse_lines) (parse_line-IsMeasured line e k, parse_lines-IsMeasured ls)
]

-- Shorter patterns first.
abbrev pub IsSorted : List Entry → Type 0
IsSorted [] = Unit
IsSorted (e ∷ rest) = All (λ f. e.priority ≤ f.priority) rest × IsSorted rest

All-le_trans :
    (n m : ℕ) (rest : List Entry)
    → n ≤ m
    → All (λ f. m ≤ f.priority) rest
    → All (λ f. n ≤ f.priority) rest
All-le_trans n m [] h a = tt
All-le_trans n m (f ∷ rest) h (hf, a) = (omega (arith, h, hf), All-le_trans n m rest h a)

module _ (tie : Entry → Entry → Bool) where
  is_put_first-eq_true : (f e : Entry) → is_put_first tie f e ≡ true → f.priority ≤ e.priority
  unfolding is_put_first
  is_put_first-eq_true f e h = elim (Bool-cases (ltb f.priority e.priority)) [
    | inl k ↦ ground (arith, k)
    | inr k ↦ ground (arith, k, h)
  ]

  is_put_first-eq_false : (f e : Entry) → is_put_first tie f e ≡ false → e.priority ≤ f.priority
  unfolding is_put_first
  is_put_first-eq_false f e h = ground (arith, h)

  All-insert_entry :
      (P : Entry → Type 0) (e : Entry) (rest : List Entry)
      → P e
      → All P rest
      → All P (insert_entry tie e rest)
  unfolding insert_entry
  All-insert_entry P e [] h a = (h, tt)
  All-insert_entry P e (f ∷ rest) h (hf, a) = elim (Bool-cases (is_put_first tie f e)) [
    | inl k ↦ rw k (hf, All-insert_entry P e rest h a)
    | inr k ↦ rw k (h, (hf, a))
  ]

  insert_entry-IsSorted :
      (e : Entry) (rest : List Entry) → IsSorted rest → IsSorted (insert_entry tie e rest)
  unfolding insert_entry
  insert_entry-IsSorted e [] s = (tt, tt)
  insert_entry-IsSorted e (f ∷ rest) (a, s) = elim (Bool-cases (is_put_first tie f e)) [
    | inl k ↦
        let le : f.priority ≤ e.priority = is_put_first-eq_true f e k in
        rw k (
          All-insert_entry (λ g. f.priority ≤ g.priority) e rest le a,
          insert_entry-IsSorted e rest s,
        )
    | inr k ↦
        let le : e.priority ≤ f.priority = is_put_first-eq_false f e k in
        rw k ((le, All-le_trans e.priority f.priority rest le a), (a, s))
  ]

  sort_entries-IsSorted : (entries : List Entry) → IsSorted (sort_entries tie entries)
  unfolding sort_entries
  sort_entries-IsSorted [] = tt
  sort_entries-IsSorted (e ∷ rest) =
      insert_entry-IsSorted e (sort_entries tie rest) (sort_entries-IsSorted rest)

  sort_entries-All :
      (P : Entry → Type 0) (entries : List Entry) → All P entries → All P (sort_entries tie entries)
  unfolding sort_entries
  sort_entries-All P [] a = tt
  sort_entries-All P (e ∷ rest) (h, a) =
      All-insert_entry P e (sort_entries tie rest) h (sort_entries-All P rest a)

-- The element is in the list.
abbrev pub Among : {A : Type 0} → A → List A → Type 0
Among x [] = ⊥
Among x (y ∷ ys) = (x ≡ y) ⊎ Among x ys

le_of_Among :
    (n : ℕ) (e : Entry) (rest : List Entry)
    → Among e rest
    → All (λ f. n ≤ f.priority) rest
    → IsMeasured rest
    → n ≤ size e
le_of_Among n e [] h a m = elim h [ ]
le_of_Among n e (f ∷ rest) (inl h) (a, _) (m, _) = rw h (rw m at a)
le_of_Among n e (f ∷ rest) (inr h) (_, a) (_, m) = le_of_Among n e rest h a m

module _ (path_match : Bytes → Bytes → Bool) (path : Bytes) where
  abbrev pub matches : Entry → Bool
  matches e = match_code_owners_pattern path_match e.pattern path

  -- No entry matches.
  abbrev pub NoneMatches : List Entry → Type 0
  NoneMatches entries = All (λ e. matches e ≡ false) entries

  -- An entry that matches, with the longest pattern of all that match.
  pub record IsLongest (entries : List Entry) (owners : List Bytes) : Type 0 where
    pub entry : Entry
    pub among : Among entry entries
    pub matching : matches entry ≡ true
    pub owners-lem : owners ≡ entry.owners
    pub longest : All (λ f. (matches f ≡ false) ⊎ (size f ≤ size entry)) entries

  weaken :
      (n : ℕ) (rest : List Entry)
      → NoneMatches rest
      → All (λ f. (matches f ≡ false) ⊎ (size f ≤ n)) rest
  weaken n [] a = tt
  weaken n (f ∷ rest) (h, a) = (inl h, weaken n rest a)

  match_from-IsLongest :
      (entries : List Entry) (owners : List Bytes)
      → IsSorted entries
      → IsMeasured entries
      → (NoneMatches entries × (match_from path_match owners entries path ≡ owners))
        ⊎ IsLongest entries (match_from path_match owners entries path)
  unfolding match_from
  match_from-IsLongest [] owners s m = inl (tt, refl)
  match_from-IsLongest (e ∷ rest) owners (a, s) (me, m) = elim (Bool-cases (matches e)) [
    | inr k ↦
        simp (k, match_from)
          (elim (match_from-IsLongest rest owners s m) [
            | inl (n, h) ↦ inl ((refl, n), h)
            | inr l ↦ inr (record {
              entry = l.entry;
              among = inr l.among;
              matching = l.matching;
              owners-lem = l.owners-lem;
              longest = (inl k, l.longest);
            })
          ])
    | inl k ↦
        simp (k, match_from)
          (elim (match_from-IsLongest rest e.owners s m) [
            | inl (n, h) ↦ inr (record {
              entry = e;
              among = inl refl;
              matching = k;
              owners-lem = h;
              longest = (inr (omega arith), weaken (size e) rest n);
            })
            | inr l ↦ inr (record {
              entry = l.entry;
              among = inr l.among;
              matching = l.matching;
              owners-lem = l.owners-lem;
              longest = (
                inr (omega (arith, me, le_of_Among e.priority l.entry rest l.among a m)),
                l.longest,
              );
            })
          ])
  ]

-- For the entries of any CODEOWNERS file, a file gets no owners because no entry matches it, or it
-- gets the owners of an entry that matches and whose pattern, without its slashes, is at least
-- as long as that of any entry that matches, wherever the sort puts entries of equal priority.
pub match_owners-IsLongest :
    (tie : Entry → Entry → Bool) (path_match : Bytes → Bytes → Bool) (content path : Bytes)
    → (NoneMatches path_match path (parse_code_owners tie content)
        × (match_owners path_match (parse_code_owners tie content) path ≡ []))
      ⊎ IsLongest path_match path
          (parse_code_owners tie content)
          (match_owners path_match (parse_code_owners tie content) path)
unfolding match_owners parse_code_owners
match_owners-IsLongest tie path_match content path =
    match_from-IsLongest path_match path (sort_entries tie (parse_lines (lines content))) []
      (sort_entries-IsSorted tie (parse_lines (lines content)))
      (sort_entries-All tie (λ e. e.priority ≡ size e) (parse_lines (lines content))
        (parse_lines-IsMeasured (lines content)))

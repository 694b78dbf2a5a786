-- ===== src/Queue/Store.antt =====
-- The database as the queue sees it: the buckets of queue items and of pull requests with their
-- index (`GetPRByIndex` and `PutPRWithIndex` of common/db/bbolt_core.go), `getPRFromDB` of
-- checker.go and `FindPRByID` of manager.go. A stored value that does not decode is `none`.
pub mod Index
pub mod Missing
pub mod Again
pub mod Tests
use asika.Prelude.{
  ℕ, Bool, not, ◌&&◌, ◌||◌, Option, none, some, List, [], ◌∷◌, ◌++◌, Bytes, lit, text_eq, is_empty,
  ltb, Result, ok, fail, panic, plain, error_text, if◌then◌else◌,
}
use asika.Models.{PrRecord, QueueItem}
use asika.Db.{Bucket, lookup, insert, with_prefix}
use asika.Queue.Expr.Values.{show_nat}
use asika.Queue.World.{World}

pub record PrStore : Type 0 where
  pub prs : Bucket (Option PrRecord)
  -- Group and id, or group and number, to the key of the record.
  pub by_id : Bucket Bytes
  pub by_number : Bucket Bytes

-- `fmt.Sprintf("%s#%s", a, b)`
unfoldable pub join_key : Bytes → Bytes → Bytes
join_key a b = a ++ (lit "#" ++ b)

unfoldable pub id_key : Bytes → Bytes → Bytes
id_key group id = if is_empty group then id else group ++ (lit ":" ++ id)

unfoldable pub number_key : Bytes → ℕ → Bytes
number_key group number = group ++ (lit ":" ++ show_nat number)

-- The record that an index entry leads to.
unfoldable pub follow : Bucket Bytes → Bytes → Bucket (Option PrRecord) → Option (Option PrRecord)
follow index k prs = elim (lookup k index) [ none ↦ none | some key ↦ lookup key prs ]

unfoldable pub by_number_entry : PrStore → Bytes → ℕ → Option (Option PrRecord)
unfolding follow number_key
by_number_entry st group number =
    if not (is_empty group) && ltb 0 number
    then follow st.by_number (number_key group number) st.prs
    else none

unfoldable pub indexed : PrStore → Bytes → Bytes → ℕ → Option (Option PrRecord)
unfolding follow id_key by_number_entry
indexed st id group number =
    let entry = if is_empty id then none else follow st.by_id (id_key group id) st.prs in
    elim entry [ some found ↦ some found | none ↦ by_number_entry st group number ]

-- The first record with the id, of the group if one is named.
unfoldable pub scan : Bytes → Bytes → Bucket (Option PrRecord) → Option (Bytes × PrRecord)
scan id group [] = none
scan id group ((k, none) ∷ rest) = scan id group rest
scan id group ((k, some pr) ∷ rest) =
    if text_eq pr.id id && (is_empty group || text_eq pr.repo_group group)
    then some (k, pr)
    else scan id group rest

unfoldable pub repair : PrStore → Bytes → Bytes → PrRecord → PrStore
unfolding id_key number_key
repair st id key pr =
    let st' = record st { by_id = insert (id_key pr.repo_group id) key st.by_id } in
    if not (is_empty pr.repo_group) && ltb 0 pr.pr_number
    then record st' { by_number = insert (number_key pr.repo_group pr.pr_number) key st.by_number }
    else st'

unfoldable pub scanned :
    PrStore → Bytes → Option (Bytes × PrRecord) → Option (Option PrRecord) × PrStore
unfolding repair
scanned st id none = (none, st)
scanned st id (some (key, pr)) = (some (some pr), repair st id key pr)

-- The data that is found, if any, and the store with its index repaired.
unfoldable pub get_pr_by_index : Bytes → Bytes → ℕ → PrStore → Option (Option PrRecord) × PrStore
unfolding indexed scan scanned
get_pr_by_index id group number st = elim (indexed st id group number) [
  | some found ↦ (some found, st)
  | none ↦ if is_empty id then (none, st) else scanned st id (scan id group st.prs)
]

-- The same, with the error of the database.
pub read_pr : World → Bytes → Bytes → ℕ → PrStore → Result (Option (Option PrRecord)) × PrStore
unfolding get_pr_by_index
read_pr w id group number st = elim (w.index_error id group) [
  | some e ↦ (fail e, st)
  | none ↦ let (found, st') = get_pr_by_index id group number st in (ok found, st')
]

unfoldable pub put_pr_with_index : Bytes → PrRecord → Bytes → Bytes → ℕ → PrStore → PrStore
unfolding id_key number_key
put_pr_with_index key pr id group number st = record {
  prs = insert key (some pr) st.prs;
  by_id = if is_empty id then st.by_id else insert (id_key group id) key st.by_id;
  by_number =
      if is_empty group then st.by_number else insert (number_key group number) key st.by_number;
}

unfoldable pub not_found : Bytes → Result PrRecord
not_found id = fail (plain (lit "PR not found: " ++ id))

-- The first record of a bucket with the id.
unfoldable pub first_with_id : Bytes → Bucket (Option PrRecord) → Option PrRecord
first_with_id id [] = none
first_with_id id ((k, none) ∷ rest) = first_with_id id rest
first_with_id id ((k, some pr) ∷ rest) = if text_eq pr.id id then some pr else first_with_id id rest

unfoldable pub found_or : Option PrRecord → Bytes → Result PrRecord
unfolding not_found
found_or none id = not_found id
found_or (some pr) id = ok pr

-- What a scan sees: nothing where it fails.
pub entries_of : World → Bytes → Bucket (Option PrRecord) → Bucket (Option PrRecord)
entries_of w prefix prs = elim (w.scan_error prefix) [ none ↦ with_prefix prefix prs | some e ↦ [] ]

pub direct : World → Bytes → Bucket (Option PrRecord) → Option (Option PrRecord)
direct w key prs = elim (w.get_error key) [ none ↦ lookup key prs | some e ↦ none ]

-- The direct key, then the records of the group. An error of a read is passed over.
unfoldable pub by_key_or_scan : World → Bytes → Bytes → PrStore → Result PrRecord
unfolding found_or first_with_id entries_of direct
by_key_or_scan w group id st = elim (direct w (join_key group id) st.prs) [
  | some found ↦ elim found [
    | some pr ↦ ok pr
    | none ↦ found_or (first_with_id id (entries_of w (group ++ lit "#") st.prs)) id
  ]
  | none ↦ found_or (first_with_id id (entries_of w (group ++ lit "#") st.prs)) id
]

unfoldable pub of_index :
    World → Bytes → Bytes → Result (Option (Option PrRecord)) → PrStore → Result PrRecord
unfolding by_key_or_scan
of_index w group id (ok (some (some pr))) st =
    if not (is_empty pr.repo_group) && not (text_eq pr.repo_group group)
    then fail (
        plain
          (lit "pr repo_group mismatch: expected " ++ (group ++ (lit ", got " ++ pr.repo_group))))
    else ok pr
of_index w group id _ st = by_key_or_scan w group id st

-- `getPRFromDB`
unfoldable pub get_pr_from_db : World → Bytes → Bytes → PrStore → Result PrRecord × PrStore
unfolding of_index read_pr
get_pr_from_db w group id st =
    let (found, st') = read_pr w id group 0 st in (of_index w group id found st', st')

unfoldable pub of_index_any :
    World → Bytes → Result (Option (Option PrRecord)) → PrStore → Result PrRecord
unfolding found_or first_with_id entries_of
of_index_any w id (fail e) st =
    fail (plain (lit "PR lookup failed for " ++ (id ++ (lit ": " ++ error_text e))))
of_index_any w id panic st = panic
of_index_any w id (ok (some (some pr))) st = ok pr
of_index_any w id (ok _) st = found_or (first_with_id id (entries_of w [] st.prs)) id

-- `FindPRByID`
unfoldable pub find_pr_by_id : World → Bytes → Bytes → PrStore → Result PrRecord × PrStore
unfolding of_index_any read_pr
find_pr_by_id w id group st =
    let (found, st') = read_pr w id group 0 st in (of_index_any w id found st', st')

-- One `MergePR` that the platform accepted.
pub record Merged : Type 0 where
  pub platform : Bytes
  pub owner : Bytes
  pub repo : Bytes
  pub number : ℕ
  pub method : Bytes

pub data Event : Type 0 where
  pr_queued pr_dequeued : PrRecord → Event

-- What the queue changes: the database, and what it has sent out, oldest first.
pub record State : Type 0 where
  pub queue : Bucket (Option QueueItem)
  pub store : PrStore
  pub merges : List Merged
  pub events : List Event
  pub labeled : List Bytes
  -- `checkMu` is held.
  pub busy : Bool

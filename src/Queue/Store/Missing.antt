-- ===== src/Queue/Store/Missing.antt =====
-- When `getPRFromDB` gives an error.
use asika.Prelude.{
  ◌≡◌, ◌⊎◌, refl, inl, inr, Bool, false, not, ◌&&◌, Option, none, some, [], ◌∷◌, ◌++◌, Bytes, lit,
  text_eq, is_empty, All, ok, fail, Err, arith, Bool-cases, Option-cases,
}
use asika.Models.{PrRecord}
use asika.Db.{Bucket, lookup, with_prefix}
use asika.Queue.World.{World}
use asika.Queue.Store.{
  PrStore, join_key, repair, scanned, get_pr_by_index, read_pr, not_found, first_with_id, found_or,
  entries_of, direct, by_key_or_scan, of_index, get_pr_from_db,
}

abbrev pub has_id : Bytes → Option PrRecord → Bool
has_id id none = false
has_id id (some pr) = text_eq pr.id id

-- Nothing is stored there, or what is stored does not decode.
abbrev pub IsVoid : Option (Option PrRecord) → Type 0
IsVoid found = (found ≡ none) ⊎ (found ≡ some none)

-- Why a pull request is not found: a read of the database fails, the index leads to the record of
-- another group, or the index, the key of the record and the keys of the group lead to no record.
pub data IsMissing (w : World) (group id : Bytes) (st : PrStore) : Type 0 where
  index_unread : (e : Err) → w.index_error id group ≡ some e → IsMissing w group id st
  key_unread : (e : Err) → w.get_error (join_key group id) ≡ some e → IsMissing w group id st
  group_unread : (e : Err) → w.scan_error (group ++ lit "#") ≡ some e → IsMissing w group id st
  elsewhere :
      (pr : PrRecord)
      → (get_pr_by_index id group 0 st).0 ≡ some (some pr)
      → is_empty pr.repo_group ≡ false
      → text_eq pr.repo_group group ≡ false
      → IsMissing w group id st
  absent :
      IsVoid (get_pr_by_index id group 0 st).0
      → IsVoid (lookup (join_key group id) st.prs)
      → All (λ e. has_id id e.1 ≡ false) (with_prefix (group ++ lit "#") st.prs)
      → IsMissing w group id st

get_pr_by_index-prs :
    (id group : Bytes) (st : PrStore) → (get_pr_by_index id group 0 st).1.prs ≡ st.prs
unfolding get_pr_by_index scanned repair
get_pr_by_index-prs id group st = ground arith

first_with_id-none :
    (id : Bytes) (m : Bucket (Option PrRecord)) (e : Err)
    → found_or (first_with_id id m) id ≡ fail e
    → All (λ x. has_id id x.1 ≡ false) m
unfolding found_or first_with_id not_found
first_with_id-none id [] e h = tt
first_with_id-none id ((k, none) ∷ m) e h = (refl, first_with_id-none id m e h)
first_with_id-none id ((k, some pr) ∷ m) e h = elim (Bool-cases (text_eq pr.id id)) [
  | inl k ↦ ground (arith, h, k)
  | inr k ↦ (k, first_with_id-none id m e (rw k at h))
]

module _ (w : World) (group id : Bytes) (st : PrStore) where
  scan-IsMissing :
      (e : Err)
      → IsVoid (get_pr_by_index id group 0 st).0
      → IsVoid (lookup (join_key group id) st.prs)
      → found_or (first_with_id id (entries_of w (group ++ lit "#") st.prs)) id ≡ fail e
      → IsMissing w group id st
  unfolding entries_of
  scan-IsMissing e v u h = elim (Option-cases (w.scan_error (group ++ lit "#"))) [
    | inr (f, k) ↦ group_unread f k
    | inl k ↦ absent v u (first_with_id-none id _ e (rw (k, entries_of) at h))
  ]

  by_key_or_scan-IsMissing :
      (e : Err) (st' : PrStore)
      → st'.prs ≡ st.prs
      → IsVoid (get_pr_by_index id group 0 st).0
      → by_key_or_scan w group id st' ≡ fail e
      → IsMissing w group id st
  unfolding by_key_or_scan direct
  by_key_or_scan-IsMissing e st' same v h = elim (Option-cases (w.get_error (join_key group id))) [
    | inr (f, k) ↦ key_unread f k
    | inl k ↦ elim (Option-cases (lookup (join_key group id) st.prs)) [
      | inl l ↦ scan-IsMissing e v (inl l) (simp (k, same, l, by_key_or_scan, direct) at h)
      | inr (none, l) ↦ scan-IsMissing e v (inr l) (simp (k, same, l, by_key_or_scan, direct) at h)
      | inr (some pr, l) ↦ absurd (ground (arith, h, same, k, l))
    ]
  ]

  of_index-IsMissing :
      (e : Err) (found : Option (Option PrRecord)) (st' : PrStore)
      → (get_pr_by_index id group 0 st).0 ≡ found
      → st'.prs ≡ st.prs
      → of_index w group id (ok found) st' ≡ fail e
      → IsMissing w group id st
  unfolding of_index
  of_index-IsMissing e none st' found same h = by_key_or_scan-IsMissing e st' same (inl found) h
  of_index-IsMissing e (some none) st' found same h =
      by_key_or_scan-IsMissing e st' same (inr found) h
  of_index-IsMissing e (some (some pr)) st' found same h =
      elim (Bool-cases (not (is_empty pr.repo_group) && not (text_eq pr.repo_group group))) [
        | inl k ↦ elsewhere pr found (ground (arith, k)) (ground (arith, k))
        | inr k ↦ absurd (ground (arith, h, k))
      ]

  pub get_pr_from_db-IsMissing :
      (e : Err) → (get_pr_from_db w group id st).0 ≡ fail e → IsMissing w group id st
  unfolding get_pr_from_db read_pr
  get_pr_from_db-IsMissing e h = elim (Option-cases (w.index_error id group)) [
    | inr (f, k) ↦ index_unread f k
    | inl k ↦
        of_index-IsMissing e (get_pr_by_index id group 0 st).0 (get_pr_by_index id group 0 st).1
          refl (get_pr_by_index-prs id group st) (rw (k, read_pr) at h)
  ]

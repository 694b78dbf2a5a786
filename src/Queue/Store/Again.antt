-- ===== src/Queue/Store/Again.antt =====
-- `FindPRByID` behind `getPRFromDB`, for the same id and group.
use asika.Prelude.{
  ◌≡◌, ◌⊎◌, refl, sym, ◌∙◌, ap, inl, inr, true, false, not, ◌&&◌, ◌||◌, Option, none, some, [], ◌∷◌,
  Bytes, text_eq, is_empty, All, Result, ok, Err, arith, Bool-cases, Option-cases, text_eq_refl,
}
use asika.Models.{PrRecord}
use asika.Db.{Bucket, lookup, insert}
use asika.Db.Laws.{lookup-insert}
use asika.Queue.World.{World}
use asika.Queue.Store.{
  PrStore, follow, id_key, by_number_entry, indexed, scan, repair, scanned, get_pr_by_index,
  read_pr, of_index, get_pr_from_db, of_index_any, find_pr_by_id,
}
use asika.Queue.Store.Missing.{IsVoid}

-- No two entries have one key.
abbrev pub HasUniqueKeys : Bucket (Option PrRecord) → Type 0
HasUniqueKeys [] = Unit
HasUniqueKeys ((k, v) ∷ m) = All (λ e. text_eq k e.0 ≡ false) m × HasUniqueKeys m

scan-other :
    (k id group key : Bytes) (pr : PrRecord) (m : Bucket (Option PrRecord))
    → All (λ e. text_eq k e.0 ≡ false) m
    → scan id group m ≡ some (key, pr)
    → text_eq k key ≡ false
unfolding scan
scan-other k id group key pr [] a h = cc
scan-other k id group key pr ((j, none) ∷ m) (_, a) h = scan-other k id group key pr m a h
scan-other k id group key pr ((j, some q) ∷ m) (aj, a) h =
    elim (Bool-cases (text_eq q.id id && (is_empty group || text_eq q.repo_group group))) [
      | inr e ↦ scan-other k id group key pr m a (rw e at h)
      | inl e ↦
          let same : Path (Option (Bytes × PrRecord)) (some (j, q)) (some (key, pr)) = rw e at h in
          let key-lem : j ≡ key = cc in rw key-lem at aj
    ]

-- What the scan finds stands under its key.
scan-lookup :
    (id group key : Bytes) (pr : PrRecord) (m : Bucket (Option PrRecord))
    → HasUniqueKeys m
    → scan id group m ≡ some (key, pr)
    → lookup key m ≡ some (some pr)
unfolding scan lookup
scan-lookup id group key pr [] u h = cc
scan-lookup id group key pr ((j, none) ∷ m) (a, u) h =
    let other : text_eq j key ≡ false = scan-other j id group key pr m a h in
    rw other (scan-lookup id group key pr m u h)
scan-lookup id group key pr ((j, some q) ∷ m) (a, u) h =
    elim (Bool-cases (text_eq q.id id && (is_empty group || text_eq q.repo_group group))) [
      | inr e ↦
          let other : text_eq j key ≡ false = scan-other j id group key pr m a (rw e at h) in
          rw other (scan-lookup id group key pr m u (rw e at h))
      | inl e ↦
          let same : Path (Option (Bytes × PrRecord)) (some (j, q)) (some (key, pr)) = rw e at h in
          let key-lem : j ≡ key = cc in
          let pr-lem : q ≡ pr = cc in rw (key-lem, text_eq_refl key, pr-lem) refl
    ]

module _ (id group : Bytes) (st : PrStore) where
  repair-prs : (key : Bytes) (pr : PrRecord) → (repair st id key pr).prs ≡ st.prs
  unfolding repair
  repair-prs key pr = ground arith

  repair-by_id :
      (key : Bytes) (pr : PrRecord)
      → (repair st id key pr).by_id ≡ insert (id_key pr.repo_group id) key st.by_id
  unfolding repair
  repair-by_id key pr = ground arith

  by_number_none : (s : PrStore) → by_number_entry s group 0 ≡ none
  unfolding by_number_entry
  by_number_none s = ground arith

  -- Without a number, the index of ids decides.
  indexed-follow :
      (s : PrStore)
      → is_empty id ≡ false
      → indexed s id group 0 ≡ follow s.by_id (id_key group id) s.prs
  unfolding indexed
  indexed-follow s named = elim (Option-cases (follow s.by_id (id_key group id) s.prs)) [
    | inl h ↦ rw (named, h, indexed) (by_number_none s)
    | inr (found, h) ↦ rw (named, h, indexed) refl
  ]

  follow-inserted :
      (key : Bytes) (pr : PrRecord)
      → HasUniqueKeys st.prs
      → scan id group st.prs ≡ some (key, pr)
      → follow st.by_id (id_key group id) st.prs ≡ none
      → (follow (insert (id_key pr.repo_group id) key st.by_id) (id_key group id) st.prs ≡ none)
        ⊎ (follow (insert (id_key pr.repo_group id) key st.by_id) (id_key group id) st.prs
            ≡ some (some pr))
  unfolding follow
  follow-inserted key pr u found before =
      let entry = lookup-insert (id_key pr.repo_group id) (id_key group id) key st.by_id in
      elim (Bool-cases (text_eq (id_key pr.repo_group id) (id_key group id))) [
        | inl e ↦ inr (rw (entry, e, follow) (scan-lookup id group key pr st.prs u found))
        | inr e ↦ inl (rw (entry, e, follow) before)
      ]

  follow-repair :
      (key : Bytes) (pr : PrRecord)
      → HasUniqueKeys st.prs
      → scan id group st.prs ≡ some (key, pr)
      → follow st.by_id (id_key group id) st.prs ≡ none
      → (follow (repair st id key pr).by_id (id_key group id) (repair st id key pr).prs ≡ none)
        ⊎ (follow (repair st id key pr).by_id (id_key group id) (repair st id key pr).prs
            ≡ some (some pr))
  follow-repair key pr u found before =
      rw (repair-prs key pr, repair-by_id key pr) (follow-inserted key pr u found before)

  scanned_again :
      (key : Bytes) (pr : PrRecord)
      → HasUniqueKeys st.prs
      → is_empty id ≡ false
      → scan id group st.prs ≡ some (key, pr)
      → indexed st id group 0 ≡ none
      → (get_pr_by_index id group 0 (repair st id key pr)).0 ≡ some (some pr)
  unfolding get_pr_by_index scanned
  scanned_again key pr u named found before =
      let s : PrStore = repair st id key pr in
      elim (follow-repair key pr u found (sym (indexed-follow st named) ∙ before)) [
        | inr h ↦ rw (indexed-follow s named ∙ h, get_pr_by_index) refl
        | inl h ↦
            rw (indexed-follow s named ∙ h, named, repair-prs key pr, found, get_pr_by_index) refl
      ]

  get_indexed :
      (found : Option PrRecord)
      → indexed st id group 0 ≡ some found
      → get_pr_by_index id group 0 st ≡ (some found, st)
  unfolding get_pr_by_index
  get_indexed found k = rw (k, get_pr_by_index) refl

  get_scanned :
      (key : Bytes) (pr : PrRecord)
      → indexed st id group 0 ≡ none
      → is_empty id ≡ false
      → scan id group st.prs ≡ some (key, pr)
      → get_pr_by_index id group 0 st ≡ (some (some pr), repair st id key pr)
  unfolding get_pr_by_index scanned
  get_scanned key pr k e l = rw (k, e, l, get_pr_by_index, scanned) refl

  get_nothing :
      indexed st id group 0 ≡ none
      → (is_empty id ≡ true) ⊎ (scan id group st.prs ≡ none)
      → (get_pr_by_index id group 0 st).0 ≡ none
  unfolding get_pr_by_index scanned
  get_nothing k (inl e) = ground (arith, k, e)
  get_nothing k (inr l) = ground (arith, k, l)

  again_from :
      (found : Option (Option PrRecord) × PrStore) (pr : PrRecord)
      → get_pr_by_index id group 0 st ≡ found
      → (get_pr_by_index id group 0 found.1).0 ≡ some (some pr)
      → (get_pr_by_index id group 0 (get_pr_by_index id group 0 st).1).0 ≡ some (some pr)
  again_from found pr first again =
      ap (λ (r : Option (Option PrRecord) × PrStore). (get_pr_by_index id group 0 r.1).0) first
      ∙ again

  -- A record that `GetPRByIndex` finds it finds again.
  pub found_again :
      (pr : PrRecord)
      → HasUniqueKeys st.prs
      → (get_pr_by_index id group 0 st).0 ≡ some (some pr)
      → (get_pr_by_index id group 0 (get_pr_by_index id group 0 st).1).0 ≡ some (some pr)
  found_again pr u h = elim (Option-cases (indexed st id group 0)) [
    | inr (found, k) ↦ again_from (some found, st) pr (get_indexed found k) h
    | inl k ↦ elim (Bool-cases (is_empty id)) [
      | inl e ↦ cc (h, get_nothing k (inl e))
      | inr e ↦ elim (Option-cases (scan id group st.prs)) [
        | inl l ↦ cc (h, get_nothing k (inr l))
        | inr ((key, q), l) ↦
            let first = get_scanned key q k e l in
            let both : Path (Option (Option PrRecord)) (some (some q)) (some (some pr)) =
              sym (ap (λ (r : Option (Option PrRecord) × PrStore). r.0) first) ∙ h in
            again_from (some (some q), repair st id key q) pr first
              (scanned_again key q u e l k ∙ both)
      ]
    ]
  ]

module _ (w : World) (id group : Bytes) where
  of_index-record :
      (r pr : PrRecord) (st : PrStore)
      → of_index w group id (ok (some (some r))) st ≡ ok pr
      → r ≡ pr
  unfolding of_index
  of_index-record r pr st h =
      elim (Bool-cases (not (is_empty r.repo_group) && not (text_eq r.repo_group group))) [
        | inl k ↦ absurd (ground (arith, h, k))
        | inr k ↦ ground (arith, h, k)
      ]

  find_read :
      (r : PrRecord) (st : PrStore)
      → w.index_error id group ≡ none
      → (get_pr_by_index id group 0 st).0 ≡ some (some r)
      → (find_pr_by_id w id group st).0 ≡ ok r
  unfolding find_pr_by_id read_pr of_index_any
  find_read r st e h = rw (e, h, find_pr_by_id, read_pr) refl

  find_unread :
      (f : Err) (st : PrStore) (r : PrRecord)
      → w.index_error id group ≡ some f
      → (find_pr_by_id w id group st).0 ≡ ok r
      → ⊥
  unfolding find_pr_by_id read_pr of_index_any
  find_unread f st r e h = ground (arith, e, h)

  get_read :
      (st : PrStore)
      → w.index_error id group ≡ none
      → get_pr_from_db w group id st ≡ (
        of_index w group id
            (ok (get_pr_by_index id group 0 st).0)
            (get_pr_by_index id group 0 st).1,
        (get_pr_by_index id group 0 st).1,
      )
  unfolding get_pr_from_db read_pr
  get_read st e = rw (e, get_pr_from_db, read_pr) refl

  read-same :
      (st : PrStore) (pr merged : PrRecord) (found : Option (Option PrRecord))
      → HasUniqueKeys st.prs
      → w.index_error id group ≡ none
      → (get_pr_by_index id group 0 st).0 ≡ found
      → of_index w group id (ok found) (get_pr_by_index id group 0 st).1 ≡ ok pr
      → (find_pr_by_id w id group (get_pr_by_index id group 0 st).1).0 ≡ ok merged
      → (merged ≡ pr) ⊎ IsVoid (get_pr_by_index id group 0 st).0
  read-same st pr merged none u e f h k = inr (inl f)
  read-same st pr merged (some none) u e f h k = inr (inr f)
  read-same st pr merged (some (some r)) u e f h k =
      let same : r ≡ pr = of_index-record r pr _ h in
      let again : Path (Result PrRecord) (ok r) (ok merged) =
        sym (find_read r _ e (found_again id group st r u f)) ∙ k in
      let other : r ≡ merged = cc in inl (sym other ∙ same)

-- The record that `FindPRByID` finds behind `getPRFromDB` is the same one, if `GetPRByIndex` finds any.
pub find_pr_by_id-get_pr_from_db :
    (w : World) (id group : Bytes) (st : PrStore) (pr merged : PrRecord)
    → HasUniqueKeys st.prs
    → (get_pr_from_db w group id st).0 ≡ ok pr
    → (find_pr_by_id w id group (get_pr_from_db w group id st).1).0 ≡ ok merged
    → (merged ≡ pr) ⊎ IsVoid (get_pr_by_index id group 0 st).0
find_pr_by_id-get_pr_from_db w id group st pr merged u h k =
    elim (Option-cases (w.index_error id group)) [
      | inr (f, e) ↦ absurd (find_unread w id group f _ merged e k)
      | inl e ↦
          let read = get_read w id group st e in
          read-same w id group st pr merged _ u e refl
            (sym (ap (λ (r : Result PrRecord × PrStore). r.0) read) ∙ h)
            (sym (ap (λ (r : Result PrRecord × PrStore). (find_pr_by_id w id group r.1).0) read)
              ∙ k)
    ]

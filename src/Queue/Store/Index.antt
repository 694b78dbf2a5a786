-- ===== src/Queue/Store/Index.antt =====
-- What the index of pull requests finds after a write.
use asika.Prelude.{ℕ, ◌≡◌, refl, true, false, Option, some, [], Bytes, text_eq_refl, is_empty, ltb}
use asika.Models.{PrRecord}
use asika.Db.{Bucket, lookup, insert}
use asika.Db.Laws.{lookup-insert}
use asika.Queue.Store.{
  PrStore, follow, id_key, number_key, by_number_entry, indexed, get_pr_by_index, put_pr_with_index,
}

-- An entry just written leads to the record just written.
follow-insert :
    (k key : Bytes) (pr : PrRecord) (index : Bucket Bytes) (prs : Bucket (Option PrRecord))
    → follow (insert k key index) k (insert key (some pr) prs) ≡ some (some pr)
unfolding follow
follow-insert k key pr index prs =
    let found : lookup k (insert k key index) ≡ some key =
      rw (lookup-insert k k key index, text_eq_refl k) refl in
    let stored : lookup key (insert key (some pr) prs) ≡ some (some pr) =
      rw (lookup-insert key key (some pr) prs, text_eq_refl key) refl in
    rw (found, follow) stored

found_by_id :
    (st : PrStore) (id group : Bytes) (n : ℕ) (pr : PrRecord)
    → is_empty id ≡ false
    → follow st.by_id (id_key group id) st.prs ≡ some (some pr)
    → get_pr_by_index id group n st ≡ (some (some pr), st)
unfolding get_pr_by_index indexed
found_by_id st id group n pr named found = rw (named, found, get_pr_by_index, indexed) refl

found_by_number :
    (st : PrStore) (group : Bytes) (n : ℕ) (pr : PrRecord)
    → is_empty group ≡ false
    → ltb 0 n ≡ true
    → follow st.by_number (number_key group n) st.prs ≡ some (some pr)
    → get_pr_by_index [] group n st ≡ (some (some pr), st)
unfolding get_pr_by_index indexed by_number_entry
found_by_number st group n pr grouped numbered found =
    rw (grouped, numbered, found, get_pr_by_index, indexed, by_number_entry) refl

put-by_id :
    (key id group : Bytes) (pr : PrRecord) (number : ℕ) (st : PrStore)
    → is_empty id ≡ false
    → follow
        (put_pr_with_index key pr id group number st).by_id
        (id_key group id)
        (put_pr_with_index key pr id group number st).prs
      ≡ some (some pr)
unfolding put_pr_with_index
put-by_id key id group pr number st named =
    rw named (follow-insert (id_key group id) key pr st.by_id st.prs)

put-by_number :
    (key id group : Bytes) (pr : PrRecord) (number : ℕ) (st : PrStore)
    → is_empty group ≡ false
    → follow
        (put_pr_with_index key pr id group number st).by_number
        (number_key group number)
        (put_pr_with_index key pr id group number st).prs
      ≡ some (some pr)
unfolding put_pr_with_index
put-by_number key id group pr number st grouped =
    rw grouped (follow-insert (number_key group number) key pr st.by_number st.prs)

-- After `PutPRWithIndex` with an id, a group and a positive number, `GetPRByIndex` finds the record
-- by its id and by its number, under whatever key it was written, and repairs nothing.
pub get_pr_by_index-put_pr_with_index :
    (key id group : Bytes) (pr : PrRecord) (number n : ℕ) (st : PrStore)
    → is_empty id ≡ false
    → is_empty group ≡ false
    → ltb 0 number ≡ true
    → (get_pr_by_index id group n (put_pr_with_index key pr id group number st)
        ≡ (some (some pr), put_pr_with_index key pr id group number st))
      × (get_pr_by_index [] group number (put_pr_with_index key pr id group number st)
          ≡ (some (some pr), put_pr_with_index key pr id group number st))
get_pr_by_index-put_pr_with_index key id group pr number n st named grouped numbered =
    let after : PrStore = put_pr_with_index key pr id group number st in
    (
      found_by_id after id group n pr named (put-by_id key id group pr number st named),
      found_by_number after group number pr grouped numbered
          (put-by_number key id group pr number st grouped),
    )

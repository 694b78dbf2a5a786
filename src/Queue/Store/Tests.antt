-- ===== src/Queue/Store/Tests.antt =====
-- Runs of the index of pull requests.
use asika.Prelude.{◌≡◌, refl, false, some, [], lit, is_empty}
use asika.Queue.Samples.{pull, state}
use asika.Queue.Store.{get_pr_by_index, put_pr_with_index}
use asika.Queue.Store.Index.{get_pr_by_index-put_pr_with_index}

id_named : is_empty (lit "p1") ≡ false
unfolding lit
id_named = refl

group_named : is_empty (lit "g") ≡ false
unfolding lit
group_named = refl

get_pr_by_index-put_pr_with_index_example :
    (get_pr_by_index
        (lit "p1")
        (lit "g")
        0
        (put_pr_with_index (lit "g#x#7") pull (lit "p1") (lit "g") 7 state.store)
      ≡ (some (some pull), put_pr_with_index (lit "g#x#7") pull (lit "p1") (lit "g") 7 state.store))
    × (get_pr_by_index []
          (lit "g")
          7
          (put_pr_with_index (lit "g#x#7") pull (lit "p1") (lit "g") 7 state.store)
        ≡ (
          some (some pull),
          put_pr_with_index (lit "g#x#7") pull (lit "p1") (lit "g") 7 state.store,
        ))
get_pr_by_index-put_pr_with_index_example =
    get_pr_by_index-put_pr_with_index (lit "g#x#7") (lit "p1") (lit "g") pull 7 0 state.store
      id_named group_named refl

-- ===== src/Queue/Manager/Admit/Entries.antt =====
-- The entries of the queue behind the operations that fill and empty it.
use asika.Prelude.{
  ◌≡◌, refl, ◌⊎◌, inl, inr, Bool, true, false, not, ◌&&◌, ◌||◌, Option, none, some, List, [], ◌∷◌,
  ◌++◌, Bytes, lit, text_eq, text_eq_iff, text_eq_refl, is_empty, has_prefix, any, length, Result,
  ok, fail, panic, Bool-cases, arith, if◌then◌else◌,
}
use asika.Models.{Time, PrRecord, Config, QueueItem}
use asika.Db.{Bucket, lookup, remove, with_prefix, keys}
use asika.Db.Laws.{lookup-insert, lookup-remove}
use asika.Queue.World.{World}
use asika.Queue.Store.{State, join_key}
use asika.Queue.Manager.Admit.{
  new_item, enqueue, is_some, add_to_queue, add_to_queue_scheduled, dequeued, drop_item,
  remove_from_queue, delete_keys, clear_queue,
}

-- The pull request is open, or its state is not known, and it is no draft.
unfoldable pub is_eligible : PrRecord → Bool
is_eligible pr = not pr.is_draft && (is_empty pr.state || text_eq pr.state (lit "open"))

-- `AddToQueueScheduled`, with a database that takes the write, adds the new item under the key of
-- the pull request if that is eligible and has no entry yet, and changes no other entry.
pub add_to_queue_scheduled-lookup :
    (w : World) (cfg : Config) (pr : PrRecord) (schedule_at : Time) (st : State) (j : Bytes)
    → w.put_error (join_key pr.repo_group pr.id) ≡ none
    → lookup j (add_to_queue_scheduled w cfg pr schedule_at st).2.queue ≡ (
        if text_eq (join_key pr.repo_group pr.id) j
          && (is_eligible pr && not (is_some (lookup (join_key pr.repo_group pr.id) st.queue)))
        then some (some (new_item w cfg pr schedule_at))
        else lookup j st.queue)
unfolding add_to_queue_scheduled enqueue is_eligible
add_to_queue_scheduled-lookup w cfg pr schedule_at st j puts = grind (arith, puts, lookup-insert)

-- Where `AddToQueue` reports no error, the pull request has an entry, unless it is not eligible.
pub add_to_queue-is_some :
    (w : World) (cfg : Config) (pr : PrRecord) (st : State)
    → (add_to_queue w cfg pr st).0 ≡ none
    → (is_eligible pr ≡ false)
      ⊎ (is_some (lookup (join_key pr.repo_group pr.id) (add_to_queue w cfg pr st).2.queue) ≡ true)
unfolding add_to_queue add_to_queue_scheduled enqueue is_eligible is_some
add_to_queue-is_some w cfg pr st h =
    let k = join_key pr.repo_group pr.id in
    ground (arith, h, text_eq_refl k, lookup-insert k k (some (new_item w cfg pr 0)) st.queue)

pub dequeued-queue : (found : Result PrRecord) (st : State) → (dequeued found st).queue ≡ st.queue
unfolding dequeued
dequeued-queue (ok pr) st = refl
dequeued-queue (fail e) st = refl
dequeued-queue panic st = refl

-- `RemoveFromQueue`, with a database that deletes, takes the entry of the pull request away and
-- changes no other entry.
pub remove_from_queue-lookup :
    (w : World) (group id j : Bytes) (st : State)
    → w.delete_error (join_key group id) ≡ none
    → lookup j (remove_from_queue w group id st).1.queue
      ≡ (if text_eq (join_key group id) j then none else lookup j st.queue)
unfolding remove_from_queue drop_item is_some
remove_from_queue-lookup w group id j st deletes =
    grind (arith, deletes, lookup-remove, dequeued-queue, text_eq_iff (join_key group id) j)

is_key : Bytes → List Bytes → Bool
is_key j ks = any (λ k. text_eq k j) ks

length-keys : (q : Bucket (Option QueueItem)) → length (keys q) ≡ length q
length-keys [] = refl
length-keys ((k, v) ∷ q) = rw (length-keys q) refl

-- The keys with a prefix are those that are listed.
keys-with_prefix :
    (j p : Bytes) (q : Bucket (Option QueueItem))
    → is_key j (keys (with_prefix p q)) ≡ (has_prefix j p && is_key j (keys q))
unfolding is_key with_prefix
keys-with_prefix j p [] = ground arith
keys-with_prefix j p ((k, v) ∷ q) = elim (Bool-cases (has_prefix k p)) [
  | inl h ↦ rw (h, with_prefix) (ground (arith, h, keys-with_prefix j p q, text_eq_iff k j))
  | inr h ↦ rw (h, with_prefix) (ground (arith, h, keys-with_prefix j p q, text_eq_iff k j))
]

lookup-eq-none :
    (j : Bytes) (q : Bucket (Option QueueItem)) → is_key j (keys q) ≡ false → lookup j q ≡ none
unfolding is_key lookup
lookup-eq-none j [] h = refl
lookup-eq-none j ((k, v) ∷ q) h = ground (arith, h, lookup-eq-none j q)

clear-if :
    (j p : Bytes) (q : Bucket (Option QueueItem))
    → (if is_key j (keys (with_prefix p q)) then none else lookup j q)
      ≡ (if has_prefix j p then none else lookup j q)
clear-if j p q = ground (arith, keys-with_prefix j p q, lookup-eq-none j q)

module _ (w : World) (deletes : (k : Bytes) → w.delete_error k ≡ none) where
  delete_keys-lookup :
      (j : Bytes) (ks : List Bytes) (st : State)
      → lookup j (delete_keys w ks st).1.queue ≡ (if is_key j ks then none else lookup j st.queue)
  unfolding delete_keys is_key
  delete_keys-lookup j [] st = refl
  delete_keys-lookup j (k ∷ ks) st =
      rw (deletes k, delete_keys)
        (rw
          (
            delete_keys-lookup j ks (record st { queue = remove k st.queue }),
            lookup-remove k j st.queue,
          )
          (ground arith))

  delete_keys-length : (ks : List Bytes) (st : State) → (delete_keys w ks st).0 ≡ length ks
  unfolding delete_keys
  delete_keys-length [] st = refl
  delete_keys-length (k ∷ ks) st =
      rw (deletes k, delete_keys)
        (rw (delete_keys-length ks (record st { queue = remove k st.queue })) refl)

  -- `ClearQueue`, with a database that deletes, takes away the entries whose key begins with the
  -- name of the group and "#", changes no other entry, and returns the number of those entries.
  pub clear_queue-lookup :
      (group j : Bytes) (st : State)
      → (lookup j (clear_queue w group st).1.queue
          ≡ (if has_prefix j (group ++ lit "#") then none else lookup j st.queue))
        × ((clear_queue w group st).0 ≡ length (with_prefix (group ++ lit "#") st.queue))
  unfolding clear_queue
  clear_queue-lookup group j st = (
    rw (delete_keys-lookup j (keys (with_prefix (group ++ lit "#") st.queue)) st)
        (clear-if j (group ++ lit "#") st.queue),
    rw (delete_keys-length (keys (with_prefix (group ++ lit "#") st.queue)) st)
        (length-keys (with_prefix (group ++ lit "#") st.queue)),
  )

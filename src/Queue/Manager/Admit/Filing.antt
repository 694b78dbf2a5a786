-- ===== src/Queue/Manager/Admit/Filing.antt =====
-- The operations that fill and empty the queue keep every item under its own key.
use asika.Prelude.{
  refl, inl, inr, not, ◌&&◌, Option, none, some, List, [], ◌∷◌, ◌++◌, Bytes, lit, text_eq, is_empty,
  Result, Err, plain, if◌then◌else◌, Option-cases, if-lem,
}
use asika.Models.{Time, PrRecord, Config}
use asika.Db.{lookup, remove, with_prefix, keys}
use asika.Queue.World.{World}
use asika.Queue.Store.{State, join_key, find_pr_by_id}
use asika.Queue.Manager.Filed.{IsFiled, insert-IsFiled, remove-IsFiled}
use asika.Queue.Manager.Admit.{
  new_item, enqueue, is_some, add_to_queue_scheduled, drop_item, remove_from_queue, delete_keys,
  clear_queue,
}
use asika.Queue.Manager.Admit.Entries.{dequeued-queue}

enqueue-IsFiled :
    (w : World) (cfg : Config) (pr : PrRecord) (schedule_at : Time) (st : State)
    → IsFiled st.queue
    → IsFiled (enqueue w cfg pr schedule_at st).2.queue
unfolding enqueue new_item
enqueue-IsFiled w cfg pr schedule_at st filed =
    elim (Option-cases (w.put_error (join_key pr.repo_group pr.id))) [
      | inl h ↦ rw (h, enqueue) (insert-IsFiled _ _ st.queue refl filed)
      | inr (e, h) ↦ rw (h, enqueue) filed
    ]

pub add_to_queue_scheduled-IsFiled :
    (w : World) (cfg : Config) (pr : PrRecord) (schedule_at : Time) (st : State)
    → IsFiled st.queue
    → IsFiled (add_to_queue_scheduled w cfg pr schedule_at st).2.queue
unfolding add_to_queue_scheduled
add_to_queue_scheduled-IsFiled w cfg pr schedule_at st filed =
    let IsKept : Option Err × PrRecord × State → Type 0 = λ r. IsFiled r.2.queue in
    let stay : Option Err × PrRecord × State = (none, pr, st) in
    let is_closed = not (is_empty pr.state) && not (text_eq pr.state (lit "open")) in
    let open_only = if is_closed then stay else enqueue w cfg pr schedule_at st in
    if-lem IsKept (is_some (lookup (join_key pr.repo_group pr.id) st.queue)) stay
      (if pr.is_draft then stay else open_only) filed
      (if-lem IsKept pr.is_draft stay open_only filed (
        if-lem IsKept is_closed stay (enqueue w cfg pr schedule_at st) filed
          (enqueue-IsFiled w cfg pr schedule_at st filed)))

drop_item-IsFiled :
    (w : World) (key : Bytes) (found : Result PrRecord) (st : State)
    → IsFiled st.queue
    → IsFiled (drop_item w key found st).1.queue
unfolding drop_item
drop_item-IsFiled w key found st filed = elim (Option-cases (w.delete_error key)) [
  | inl h ↦
      rw (h, drop_item)
        (rw (dequeued-queue found (record st { queue = remove key st.queue }))
          (remove-IsFiled key st.queue filed))
  | inr (e, h) ↦ rw (h, drop_item) filed
]

pub remove_from_queue-IsFiled :
    (w : World) (group id : Bytes) (st : State)
    → IsFiled st.queue
    → IsFiled (remove_from_queue w group id st).1.queue
unfolding remove_from_queue
remove_from_queue-IsFiled w group id st filed =
    let (found, store) = find_pr_by_id w id group st.store in
    let key = join_key group id in
    if-lem (λ r. IsFiled r.1.queue) (not (is_some (lookup key st.queue)))
      (some (plain (lit "queue item not found: " ++ key)), st)
      (drop_item w key found (record st { store = store })) filed
      (drop_item-IsFiled w key found (record st { store = store }) filed)

delete_keys-IsFiled :
    (w : World) (ks : List Bytes) (st : State)
    → IsFiled st.queue
    → IsFiled (delete_keys w ks st).1.queue
unfolding delete_keys
delete_keys-IsFiled w [] st filed = filed
delete_keys-IsFiled w (k ∷ ks) st filed = elim (Option-cases (w.delete_error k)) [
  | inl h ↦
      rw (h, delete_keys)
        (delete_keys-IsFiled w ks (record st { queue = remove k st.queue })
          (remove-IsFiled k st.queue filed))
  | inr (e, h) ↦ rw (h, delete_keys) (delete_keys-IsFiled w ks st filed)
]

pub clear_queue-IsFiled :
    (w : World) (group : Bytes) (st : State)
    → IsFiled st.queue
    → IsFiled (clear_queue w group st).1.queue
unfolding clear_queue
clear_queue-IsFiled w group st filed =
    delete_keys-IsFiled w (keys (with_prefix (group ++ lit "#") st.queue)) st filed

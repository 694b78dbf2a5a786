-- ===== src/Queue/Manager/Cycle/Filing.antt =====
-- A pass of `CheckQueue` keeps every item under its own key if the sort changes nothing.
use asika.Prelude.{
  ℕ, suc, ◌≡◌, ap, inl, inr, Bool, true, false, Option, none, some, List, [], ◌∷◌, Bytes, Result,
  ok, fail, panic, Err, Bool-cases, Option-cases,
}
use asika.Models.{Time, Config, QueueItem}
use asika.Db.{Bucket}
use asika.Queue.World.{World}
use asika.Queue.Store.{State, join_key, get_pr_from_db}
use asika.Queue.Checker.Approvals.{is_transient_error}
use asika.Queue.Checker.Merge.Identity.{should_merge-identity}
use asika.Queue.Manager.Merge.{merge}
use asika.Queue.Manager.Merge.Frame.{merge-queue}
use asika.Queue.Manager.Filed.{IsFiled, insert-IsFiled, remove-IsFiled}
use asika.Queue.Manager.Cycle.{
  Sorting, clean, pass, bury, take, classify, Scan, scan_item, scan_queue, put, delete, delete_all,
  store_item, after_merge, as_merging, failed_item, settle, as_checking, verdict, after_check,
  check_item, is_scheduled_later, visit, check_items, run_pass, check_queue,
}
use asika.Queue.Manager.Cycle.Order.{IsStrict, sort_items-eq_self}

put-IsFiled :
    (w : World) (key : Bytes) (item : QueueItem) (q : Bucket (Option QueueItem))
    → key ≡ join_key item.repo_group item.pr_id
    → IsFiled q
    → IsFiled (put w key item q)
unfolding put
put-IsFiled w key item q own filed = elim (Option-cases (w.put_error key)) [
  | inl h ↦ rw (h, put) (insert-IsFiled key (some item) q own filed)
  | inr (e, h) ↦ rw (h, put) filed
]

delete-IsFiled :
    (w : World) (key : Bytes) (q : Bucket (Option QueueItem)) → IsFiled q → IsFiled (delete w key q)
unfolding delete
delete-IsFiled w key q filed = elim (Option-cases (w.delete_error key)) [
  | inl h ↦ rw (h, delete) (remove-IsFiled key q filed)
  | inr (e, h) ↦ rw (h, delete) filed
]

delete_all-IsFiled :
    (w : World) (ks : List Bytes) (q : Bucket (Option QueueItem))
    → IsFiled q
    → IsFiled (delete_all w ks q)
unfolding delete_all
delete_all-IsFiled w [] q filed = filed
delete_all-IsFiled w (k ∷ ks) q filed =
    delete_all-IsFiled w ks (delete w k q) (delete-IsFiled w k q filed)

after_merge-IsFiled :
    (w : World) (key : Bytes) (item : QueueItem) (r : Option Err × State)
    → key ≡ join_key item.repo_group item.pr_id
    → IsFiled r.1.queue
    → IsFiled (after_merge w key item r).queue
unfolding after_merge store_item failed_item
after_merge-IsFiled w key item (none, st) own filed = delete-IsFiled w key st.queue filed
after_merge-IsFiled w key item (some e, st) own filed =
    put-IsFiled w key (failed_item w e item) st.queue own filed

settle-IsFiled :
    (w : World) (cfg : Config) (key : Bytes) (r : Result Bool) (item : QueueItem) (st : State)
    → key ≡ join_key item.repo_group item.pr_id
    → IsFiled st.queue
    → IsFiled (settle w cfg key r item st).0.queue
unfolding settle store_item failed_item as_merging
settle-IsFiled w cfg key (fail e) item st own filed = elim (Bool-cases (is_transient_error e)) [
  | inl h ↦ rw h (put-IsFiled w key _ st.queue own filed)
  | inr h ↦ rw h (put-IsFiled w key _ st.queue own filed)
]
settle-IsFiled w cfg key (ok true) item st own filed =
    after_merge-IsFiled w key (as_merging item) (merge w cfg (as_merging item) st) own
      (rw (merge-queue w cfg (as_merging item) st) filed)
settle-IsFiled w cfg key (ok false) item st own filed = put-IsFiled w key _ st.queue own filed
settle-IsFiled w cfg key panic item st own filed = filed

visit-IsFiled :
    (w : World) (cfg : Config) (now : Time) (key : Bytes) (item : QueueItem) (st : State)
    → key ≡ join_key item.repo_group item.pr_id
    → IsFiled st.queue
    → IsFiled (visit w cfg now key item st).0.queue
unfolding visit check_item verdict after_check as_checking
visit-IsFiled w cfg now key item st own filed = elim (Bool-cases (is_scheduled_later now item)) [
  | inl h ↦ rw h filed
  | inr h ↦
      let same =
        should_merge-identity w cfg (get_pr_from_db w item.repo_group item.pr_id st.store).0
          (as_checking now item) in
      rw h (
        settle-IsFiled w cfg key _ (verdict w cfg now item st).1 (after_check w cfg now item st)
          (rw (ap (λ i. i.0) same, ap (λ i. i.1) same) own) filed)
]

-- The items and the keys belong together.
abbrev pub ArePaired : List QueueItem → List Bytes → Type 0
ArePaired [] keys = Unit
ArePaired (item ∷ items) [] = Unit
ArePaired (item ∷ items) (key ∷ keys) =
    (key ≡ join_key item.repo_group item.pr_id) × ArePaired items keys

check_items-IsFiled :
    (ws : ℕ → World) (cfg : Config) (now : Time) (i : ℕ) (items : List QueueItem)
    (keys : List Bytes) (st : State)
    → ArePaired items keys
    → IsFiled st.queue
    → IsFiled (check_items ws cfg now i items keys st).queue
unfolding check_items
check_items-IsFiled ws cfg now i [] keys st paired filed = filed
check_items-IsFiled ws cfg now i (item ∷ items) [] st paired filed = filed
check_items-IsFiled ws cfg now i (item ∷ items) (key ∷ keys) st (own, paired) filed =
    let one = visit-IsFiled (ws i) cfg now key item st own filed in
    elim (Bool-cases (visit (ws i) cfg now key item st).1) [
      | inl h ↦ rw h (
          check_items-IsFiled ws cfg now (suc i) items keys (visit (ws i) cfg now key item st).0
            paired one)
      | inr h ↦ rw h one
    ]

scan_item-IsFiled :
    (w : World) (sorting : Sorting) (key : Bytes) (item : QueueItem) (s : Scan)
    → key ≡ join_key item.repo_group item.pr_id
    → ArePaired s.items s.keys × IsFiled s.queue
    → ArePaired (scan_item w sorting key item s).items (scan_item w sorting key item s).keys
      × IsFiled (scan_item w sorting key item s).queue
unfolding scan_item
scan_item-IsFiled w clean key item s own filed = filed
scan_item-IsFiled w pass key item s own filed = filed
scan_item-IsFiled w bury key item s own (paired, filed) =
    (paired, put-IsFiled w key _ s.queue own filed)
scan_item-IsFiled w take key item s own (paired, filed) = ((own, paired), filed)

scan_queue-IsFiled :
    (w : World) (q rest : Bucket (Option QueueItem))
    → IsFiled q
    → IsFiled rest
    → ArePaired (scan_queue w q rest).items (scan_queue w q rest).keys
      × IsFiled (scan_queue w q rest).queue
unfolding scan_queue
scan_queue-IsFiled w q [] filed _ = (tt, filed)
scan_queue-IsFiled w q ((key, none) ∷ rest) filed (_, others) =
    scan_queue-IsFiled w q rest filed others
scan_queue-IsFiled w q ((key, some item) ∷ rest) filed (own, others) =
    scan_item-IsFiled w (classify w.now item) key item (scan_queue w q rest) own
      (scan_queue-IsFiled w q rest filed others)

run_pass-IsFiled :
    (ws : ℕ → World) (cfg : Config) (st : State)
    → IsStrict (scan_queue (ws 0) st.queue st.queue).items
    → IsFiled st.queue
    → IsFiled (run_pass ws cfg st).queue
unfolding run_pass
run_pass-IsFiled ws cfg st ordered filed =
    let s : Scan = scan_queue (ws 0) st.queue st.queue in
    let (paired, kept) = scan_queue-IsFiled (ws 0) st.queue st.queue filed filed in
    rw (sort_items-eq_self (ws 0) s.items ordered) (
      check_items-IsFiled ws cfg (ws 0).now 1 s.items s.keys
        (record st { queue = delete_all (ws 0) s.done_keys s.queue }) paired
        (delete_all-IsFiled (ws 0) s.done_keys s.queue kept))

-- If the items that the first loop of `CheckQueue` takes from the queue are in the order of the
-- sort already, no two of them equal in priority and time of arrival, and every item is stored under its own key, every item is so after the pass.
pub check_queue-IsFiled :
    (ws : ℕ → World) (cfg : Config) (st : State)
    → IsStrict (scan_queue (ws 0) st.queue st.queue).items
    → IsFiled st.queue
    → IsFiled (check_queue ws cfg st).queue
unfolding check_queue
check_queue-IsFiled ws cfg st ordered filed = elim (Bool-cases st.busy) [
  | inl h ↦ rw (h, check_queue) filed
  | inr h ↦ rw (h, check_queue) (run_pass-IsFiled ws cfg (record st { busy = true }) ordered filed)
]

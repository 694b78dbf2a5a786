-- ===== src/Queue/Manager/Cycle/Keys.antt =====
-- The keys that a pass of `CheckQueue` touches.
use asika.Prelude.{
  ℕ, suc, ◌≡◌, refl, inl, inr, Bool, true, false, not, ◌&&◌, ◌||◌, Option, none, some, List, [],
  ◌∷◌, Bytes, text_eq, any, Result, ok, fail, panic, Err, Bool-cases, arith,
}
use asika.Models.{Time, Config, QueueItem}
use asika.Db.{Bucket, lookup}
use asika.Db.Laws.{lookup-insert, lookup-remove}
use asika.Queue.World.{World}
use asika.Queue.Store.{State}
use asika.Queue.Manager.Merge.{merge}
use asika.Queue.Manager.Merge.Frame.{merge-queue}
use asika.Queue.Manager.Cycle.{
  Sorting, clean, pass, bury, take, classify, Scan, scan_item, scan_queue, put, delete, delete_all,
  store_item, after_merge, as_merging, settle, check_item, visit, check_items, sort_items, run_pass,
  check_queue, is_scheduled_later, after_check, verdict, failed_item,
}

put-frame :
    (w : World) (key j : Bytes) (item : QueueItem) (q : Bucket (Option QueueItem))
    → text_eq key j ≡ false
    → lookup j (put w key item q) ≡ lookup j q
unfolding put
put-frame w key j item q ne = ground (arith, lookup-insert key j (some item) q)

delete-frame :
    (w : World) (key j : Bytes) (q : Bucket (Option QueueItem))
    → text_eq key j ≡ false
    → lookup j (delete w key q) ≡ lookup j q
unfolding delete
delete-frame w key j q ne = ground (arith, lookup-remove key j q)

after_merge-frame :
    (w : World) (key j : Bytes) (item : QueueItem) (r : Option Err × State)
    → text_eq key j ≡ false
    → lookup j (after_merge w key item r).queue ≡ lookup j r.1.queue
unfolding after_merge store_item
after_merge-frame w key j item (none, st) ne = delete-frame w key j st.queue ne
after_merge-frame w key j item (some e, st) ne =
    put-frame w key j (failed_item w e item) st.queue ne

settle-frame :
    (w : World) (cfg : Config) (key j : Bytes) (r : Result Bool) (item : QueueItem) (st : State)
    → text_eq key j ≡ false
    → lookup j (settle w cfg key r item st).0.queue ≡ lookup j st.queue
unfolding settle store_item
settle-frame w cfg key j (fail e) item st ne = grind (arith, put-frame)
settle-frame w cfg key j (ok true) item st ne =
    rw
      (
        after_merge-frame w key j (as_merging item) (merge w cfg (as_merging item) st) ne,
        merge-queue w cfg (as_merging item) st,
      )
      refl
settle-frame w cfg key j (ok false) item st ne = put-frame w key j _ st.queue ne
settle-frame w cfg key j panic item st ne = refl

-- A visit of an item touches no entry but the one under its key.
visit-frame :
    (w : World) (cfg : Config) (now : Time) (key j : Bytes) (item : QueueItem) (st : State)
    → text_eq key j ≡ false
    → lookup j (visit w cfg now key item st).0.queue ≡ lookup j st.queue
unfolding visit check_item after_check
visit-frame w cfg now key j item st ne = elim (Bool-cases (is_scheduled_later now item)) [
  | inl h ↦ rw h refl
  | inr h ↦ rw h (
      settle-frame w cfg key j (verdict w cfg now item st).0 (verdict w cfg now item st).1
        (after_check w cfg now item st) ne)
]

is_key : Bytes → List Bytes → Bool
is_key j ks = any (λ k. text_eq k j) ks

check_items-frame :
    (ws : ℕ → World) (cfg : Config) (now : Time) (i : ℕ) (j : Bytes) (items : List QueueItem)
    (keys : List Bytes) (st : State)
    → is_key j keys ≡ false
    → lookup j (check_items ws cfg now i items keys st).queue ≡ lookup j st.queue
unfolding check_items is_key
check_items-frame ws cfg now i j [] keys st free = refl
check_items-frame ws cfg now i j (item ∷ items) [] st free = refl
check_items-frame ws cfg now i j (item ∷ items) (key ∷ keys) st free = grind (
  arith,
  visit-frame (ws i) cfg now key j item st,
  check_items-frame ws cfg now (suc i) j items keys (visit (ws i) cfg now key item st).0,
)

delete_all-frame :
    (w : World) (j : Bytes) (ks : List Bytes) (q : Bucket (Option QueueItem))
    → is_key j ks ≡ false
    → lookup j (delete_all w ks q) ≡ lookup j q
unfolding delete_all is_key
delete_all-frame w j [] q free = refl
delete_all-frame w j (k ∷ ks) q free =
    grind (arith, delete-frame w k j q, delete_all-frame w j ks (delete w k q))

-- Whether the first loop does anything with an item.
unfoldable pub is_passed : Sorting → Bool
is_passed pass = true
is_passed _ = false

-- Whether the queue has an item under the key `j` with which the first loop does anything.
unfoldable pub is_due_under : Time → Bytes → Bucket (Option QueueItem) → Bool
is_due_under now j [] = false
is_due_under now j ((key, none) ∷ rest) = is_due_under now j rest
is_due_under now j ((key, some item) ∷ rest) =
    (text_eq key j && not (is_passed (classify now item))) || is_due_under now j rest

record Untouched (j : Bytes) (q : Bucket (Option QueueItem)) (s : Scan) : Type 0 where
  keys-lem : is_key j s.keys ≡ false
  done_keys-lem : is_key j s.done_keys ≡ false
  queue-lem : lookup j s.queue ≡ lookup j q

scan_item-Untouched :
    (w : World) (sorting : Sorting) (key j : Bytes) (item : QueueItem)
    (q : Bucket (Option QueueItem)) (s : Scan)
    → (text_eq key j && not (is_passed sorting)) ≡ false
    → Untouched j q s
    → Untouched j q (scan_item w sorting key item s)
unfolding is_passed scan_item is_key
scan_item-Untouched w clean key j item q s h u = record {
  keys-lem = u.keys-lem;
  done_keys-lem = ground (arith, h, u.done_keys-lem);
  queue-lem = u.queue-lem;
}
scan_item-Untouched w pass key j item q s h u = u
scan_item-Untouched w bury key j item q s h u = record {
  keys-lem = u.keys-lem;
  done_keys-lem = u.done_keys-lem;
  queue-lem = grind (arith, put-frame, h, u.queue-lem);
}
scan_item-Untouched w take key j item q s h u = record {
  keys-lem = ground (arith, h, u.keys-lem);
  done_keys-lem = u.done_keys-lem;
  queue-lem = u.queue-lem;
}

scan_queue-Untouched :
    (w : World) (j : Bytes) (q rest : Bucket (Option QueueItem))
    → is_due_under w.now j rest ≡ false
    → Untouched j q (scan_queue w q rest)
unfolding scan_queue is_due_under is_key
scan_queue-Untouched w j q [] h = record { keys-lem = refl; done_keys-lem = refl; queue-lem = refl }
scan_queue-Untouched w j q ((key, none) ∷ rest) h = scan_queue-Untouched w j q rest h
scan_queue-Untouched w j q ((key, some item) ∷ rest) h =
    scan_item-Untouched w (classify w.now item) key j item q (scan_queue w q rest)
      (ground (arith, h)) (scan_queue-Untouched w j q rest (ground (arith, h)))

run_pass-frame :
    (ws : ℕ → World) (cfg : Config) (j : Bytes) (st : State)
    → is_due_under (ws 0).now j st.queue ≡ false
    → lookup j (run_pass ws cfg st).queue ≡ lookup j st.queue
unfolding run_pass
run_pass-frame ws cfg j st h =
    let s : Scan = scan_queue (ws 0) st.queue st.queue in
    let u : Untouched j st.queue s = scan_queue-Untouched (ws 0) j st.queue st.queue h in
    rw
      (
        check_items-frame ws cfg (ws 0).now 1 j (sort_items (ws 0) s.items) s.keys
            (record st { queue = delete_all (ws 0) s.done_keys s.queue }) u.keys-lem,
        delete_all-frame (ws 0) j s.done_keys s.queue u.done_keys-lem,
      )
      u.queue-lem

-- A pass of `CheckQueue` leaves the entry under `j` as it is, if the first loop passes over every
-- item that the queue holds under `j`.
pub check_queue-frame :
    (ws : ℕ → World) (cfg : Config) (j : Bytes) (st : State)
    → is_due_under (ws 0).now j st.queue ≡ false
    → lookup j (check_queue ws cfg st).queue ≡ lookup j st.queue
unfolding check_queue
check_queue-frame ws cfg j st h = elim (Bool-cases st.busy) [
  | inl b ↦ rw b refl
  | inr b ↦ rw b (run_pass-frame ws cfg j (record st { busy = true }) h)
]

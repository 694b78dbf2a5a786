-- ===== src/Queue/Manager/Cycle.antt =====
-- `CheckQueue` of manager.go: one pass over the queue.
pub mod Order
pub mod Keys
pub mod Departure
pub mod Filing
pub mod Misfiled
pub mod Tests
use asika.Prelude.{
  ℕ, zero, suc, ◌+◌, ◌*◌, ◌^◌, min, Bool, true, false, not, ◌&&◌, ◌||◌, Option, none, some, List,
  [], ◌∷◌, ◌++◌, Bytes, lit, ltb, leb, ◌==◌, Result, ok, fail, panic, Err, error_text,
  if◌then◌else◌,
}
use asika.Prelude.Int.{lt_int, eq_int}
use asika.Models.{Time, second, is_zero, Config, QueueItem, QueueStatus}
use asika.Db.{Bucket, insert, remove}
use asika.Queue.World.{World}
use asika.Queue.Store.{State, get_pr_from_db}
use asika.Queue.Checker.Approvals.{is_transient_error}
use asika.Queue.Checker.Merge.{should_merge}
use asika.Queue.Manager.Merge.{merge}

abbrev pub max_retry_count : ℕ
max_retry_count = 5

-- `time.Duration(1<<uint(min(n, 10))) * time.Second`
pub backoff : ℕ → Time
backoff n = 2 ^ min n 10 * second

-- What the first loop does with an item.
pub data Sorting : Type 0 where
  clean pass bury take : Sorting

retry_due : Time → QueueItem → Bool
retry_due now item = is_zero item.next_retry_at || leb item.next_retry_at now

sort_failed : Time → QueueItem → Sorting
unfolding retry_due
sort_failed now item =
    if leb max_retry_count item.retry_count then bury else if retry_due now item then take else pass

-- The status is an argument of its own, so that the clauses can match it.
by_status : QueueStatus → Time → QueueItem → Sorting
unfolding sort_failed
by_status QueueStatus.done now item = clean
by_status QueueStatus.waiting now item = take
by_status QueueStatus.checking now item = take
by_status QueueStatus.ready now item = take
by_status QueueStatus.failed now item = sort_failed now item
by_status _ now item = pass

pub classify : Time → QueueItem → Sorting
unfolding by_status
classify now item = by_status item.status now item

-- The lists that the first loop fills, and the bucket, into which it writes dead letters.
pub record Scan : Type 0 where
  pub items : List QueueItem
  pub keys : List Bytes
  pub done_keys : List Bytes
  pub queue : Bucket (Option QueueItem)

pub put : World → Bytes → QueueItem → Bucket (Option QueueItem) → Bucket (Option QueueItem)
put w key item queue = elim (w.put_error key) [
  | none ↦ insert key (some item) queue
  | some e ↦ queue
]

pub scan_item : World → Sorting → Bytes → QueueItem → Scan → Scan
scan_item w clean key item s = record s { done_keys = key ∷ s.done_keys }
scan_item w pass key item s = s
scan_item w bury key item s = record s {
  queue = put w key (record item { status = QueueStatus.dead_letter }) s.queue;
}
scan_item w take key item s = record s { items = item ∷ s.items; keys = key ∷ s.keys }

-- The first loop over the entries as it found them. The writes go to different keys, so their
-- order does not matter, and the lists keep the order of the entries.
pub scan_queue : World → Bucket (Option QueueItem) → Bucket (Option QueueItem) → Scan
scan_queue w queue [] = record { items = []; keys = []; done_keys = []; queue = queue }
scan_queue w queue ((key, none) ∷ rest) = scan_queue w queue rest
scan_queue w queue ((key, some item) ∷ rest) =
    scan_item w (classify w.now item) key item (scan_queue w queue rest)

pub delete : World → Bytes → Bucket (Option QueueItem) → Bucket (Option QueueItem)
delete w key queue = elim (w.delete_error key) [ none ↦ remove key queue | some e ↦ queue ]

pub delete_all : World → List Bytes → Bucket (Option QueueItem) → Bucket (Option QueueItem)
delete_all w [] queue = queue
delete_all w (k ∷ ks) queue = delete_all w ks (delete w k queue)

-- The order of the sort: higher priority first, then earlier arrival.
pub before : QueueItem → QueueItem → Bool
before a b =
    lt_int b.priority a.priority || (eq_int a.priority b.priority && ltb a.added_at b.added_at)

unfoldable pub is_put_first : World → QueueItem → QueueItem → Bool
unfolding before
is_put_first w b a = before b a || (not (before a b) && w.item_tie b a)

pub insert_item : World → QueueItem → List QueueItem → List QueueItem
unfolding is_put_first
insert_item w a [] = a ∷ []
insert_item w a (b ∷ rest) = if is_put_first w b a then b ∷ insert_item w a rest else a ∷ b ∷ rest

pub sort_items : World → List QueueItem → List QueueItem
unfolding insert_item
sort_items w [] = []
sort_items w (a ∷ rest) = insert_item w a (sort_items w rest)

-- `item.Status = QueueStatusFailed` with the reason, the retry count and the time of the next try.
pub failed_item : World → Err → QueueItem → QueueItem
failed_item w e item = record item {
  status = QueueStatus.failed;
  failure_reason = error_text e;
  retry_count = item.retry_count + 1;
  next_retry_at = w.now + backoff (item.retry_count + 1);
}

pub store_item : World → Bytes → QueueItem → State → State
store_item w key item st = record st { queue = put w key item st.queue }

pub after_merge : World → Bytes → QueueItem → Option Err × State → State
after_merge w key item (none, st) = record st { queue = delete w key st.queue }
after_merge w key item (some e, st) = store_item w key (failed_item w e item) st

pub as_merging : QueueItem → QueueItem
as_merging item = record item { status = QueueStatus.merging }

-- What the second loop does with the answer of the checker. The flag says that the pass goes on;
-- a panic ends it.
pub settle : World → Config → Bytes → Result Bool → QueueItem → State → State × Bool
settle w cfg key (fail e) item st =
    if is_transient_error e
    then (store_item w key (record item { status = QueueStatus.waiting }) st, true)
    else (store_item w key (failed_item w e item) st, true)
settle w cfg key (ok true) item st =
    (after_merge w key (as_merging item) (merge w cfg (as_merging item) st), true)
settle w cfg key (ok false) item st =
    (store_item w key (record item { status = QueueStatus.waiting }) st, true)
settle w cfg key panic item st = (st, false)

-- The item as it is checked, the answer of the checker, and the state behind the check.
pub as_checking : Time → QueueItem → QueueItem
as_checking now item = record item { status = QueueStatus.checking; last_checked = now }

pub verdict : World → Config → Time → QueueItem → State → Result Bool × QueueItem × List Bytes
verdict w cfg now item st =
    should_merge w cfg (get_pr_from_db w item.repo_group item.pr_id st.store).0
      (as_checking now item)

pub after_check : World → Config → Time → QueueItem → State → State
after_check w cfg now item st = record st {
  store = (get_pr_from_db w item.repo_group item.pr_id st.store).1;
  labeled = st.labeled ++ (verdict w cfg now item st).2;
}

-- The check of one item that is due.
pub check_item : World → Config → Time → Bytes → QueueItem → State → State × Bool
check_item w cfg now key item st =
    let (answer, checked, labels) = verdict w cfg now item st in
    settle w cfg key answer checked (after_check w cfg now item st)

pub is_scheduled_later : Time → QueueItem → Bool
is_scheduled_later now item = not (is_zero item.schedule_at) && ltb now item.schedule_at

pub visit : World → Config → Time → Bytes → QueueItem → State → State × Bool
visit w cfg now key item st =
    if is_scheduled_later now item then (st, true) else check_item w cfg now key item st

-- The second loop. `items` is sorted and `keys` is not: the code takes `keys[i]` for `items[i]`.
-- Round `i` meets the world `ws i`.
pub check_items : (ℕ → World) → Config → Time → ℕ → List QueueItem → List Bytes → State → State
check_items ws cfg now i [] keys st = st
check_items ws cfg now i (item ∷ items) [] st = st
check_items ws cfg now i (item ∷ items) (key ∷ keys) st =
    let (st', goes_on) = visit (ws i) cfg now key item st in
    let rest = check_items ws cfg now (suc i) items keys st' in if goes_on then rest else st'

-- The pass with the lock held; `ws 0` is the world of the first loop.
pub run_pass : (ℕ → World) → Config → State → State
run_pass ws cfg st =
    let s = scan_queue (ws 0) st.queue st.queue in
    check_items ws cfg (ws 0).now 1 (sort_items (ws 0) s.items) s.keys
      (record st { queue = delete_all (ws 0) s.done_keys s.queue })

-- `CheckQueue`: a second call while one runs returns at once. The lock is let go on every way out.
pub check_queue : (ℕ → World) → Config → State → State
check_queue ws cfg st =
    if st.busy
    then st
    else let st' = run_pass ws cfg (record st { busy = true }) in record st' { busy = false }

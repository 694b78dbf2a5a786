-- ===== src/Queue/Manager/Admit.antt =====
-- `AddToQueueScheduled`, `AddToQueue`, `RemoveFromQueue` and `ClearQueue` of manager.go.
pub mod Entries
pub mod Filing
use asika.Prelude.{
  ℕ, zero, suc, Bool, true, false, not, ◌&&◌, Option, none, some, List, [], ◌∷◌, ◌++◌, Bytes, lit,
  text_eq, is_empty, Result, ok, fail, panic, Err, plain, if◌then◌else◌,
}
use asika.Prelude.Int.{ℤ, pos}
use asika.Models.{
  Time, RepoGroup, PrRecord, Config, QueueItem, QueueStatus, ValidationStatus, PrEvent,
}
use asika.Config.{get_repo_group_by_name}
use asika.Db.{lookup, insert, remove, with_prefix, keys}
use asika.Queue.World.{World}
use asika.Queue.Store.{State, pr_queued, pr_dequeued, join_key, find_pr_by_id}

required_of : Option RepoGroup → ℤ
required_of none = pos 1
required_of (some group) = group.merge_queue.required_approvals

-- The item that `AddToQueueScheduled` stores.
pub new_item : World → Config → PrRecord → Time → QueueItem
unfolding required_of
new_item w cfg pr schedule_at = record {
  pr_id = pr.id;
  repo_group = pr.repo_group;
  status = QueueStatus.waiting;
  added_at = w.now;
  last_checked = 0;
  failure_reason = [];
  retry_count = 0;
  next_retry_at = 0;
  criteria = record {
    required_approvals = required_of (get_repo_group_by_name cfg pr.repo_group);
    approved_by = [];
    ci_status = lit "pending";
  };
  schedule_at = schedule_at;
  validation_status = ValidationStatus.unset;
  validation_started = 0;
  validation_detail = [];
  priority = pos 0;
  security_blocked = false;
  security_override = [];
}

with_event : World → PrRecord → Bytes → PrRecord
with_event w pr action = record pr {
  events = pr.events ++ record { timestamp = w.now; action = action; actor = lit "system" } ∷ [];
}

enqueue : World → Config → PrRecord → Time → State → Option Err × PrRecord × State
unfolding with_event
enqueue w cfg pr schedule_at st =
    let key = join_key pr.repo_group pr.id in
    elim (w.put_error key) [
      | some e ↦ (some e, pr, st)
      | none ↦ (
        none,
        with_event w pr (lit "queued"),
        record st {
          queue = insert key (some (new_item w cfg pr schedule_at)) st.queue;
          events = st.events ++ pr_queued pr ∷ [];
        },
      )
    ]

pub is_some {ℓ} : {A : Type ℓ} → Option A → Bool
is_some none = false
is_some (some a) = true

-- `none` is no error. The record of the caller gets the event "queued".
pub add_to_queue_scheduled :
    World → Config → PrRecord → Time → State → Option Err × PrRecord × State
unfolding is_some
add_to_queue_scheduled w cfg pr schedule_at st =
    if is_some (lookup (join_key pr.repo_group pr.id) st.queue)
    then (none, pr, st)
    else if pr.is_draft
    then (none, pr, st)
    else if not (is_empty pr.state) && not (text_eq pr.state (lit "open"))
    then (none, pr, st)
    else enqueue w cfg pr schedule_at st

pub add_to_queue : World → Config → PrRecord → State → Option Err × PrRecord × State
add_to_queue w cfg pr st = add_to_queue_scheduled w cfg pr 0 st

pub dequeued : Result PrRecord → State → State
dequeued (ok pr) st = record st { events = st.events ++ pr_dequeued pr ∷ [] }
dequeued _ st = st

drop_item : World → Bytes → Result PrRecord → State → Option Err × State
unfolding dequeued
drop_item w key found st = elim (w.delete_error key) [
  | some e ↦ (some e, st)
  | none ↦ (none, dequeued found (record st { queue = remove key st.queue }))
]

pub remove_from_queue : World → Bytes → Bytes → State → Option Err × State
unfolding drop_item is_some
remove_from_queue w group id st =
    let key = join_key group id in
    if not (is_some (lookup key st.queue))
    then (some (plain (lit "queue item not found: " ++ key)), st)
    else let (found, store) = find_pr_by_id w id group st.store in
      drop_item w key found (record st { store = store })

-- The loop of `ClearQueue`, with the number of entries that were deleted.
delete_keys : World → List Bytes → State → ℕ × State
delete_keys w [] st = (0, st)
delete_keys w (k ∷ ks) st = elim (w.delete_error k) [
  | some e ↦ delete_keys w ks st
  | none ↦ let (n, st') = delete_keys w ks (record st { queue = remove k st.queue }) in (suc n, st')
]

pub clear_queue : World → Bytes → State → ℕ × State
unfolding delete_keys
clear_queue w group st = delete_keys w (keys (with_prefix (group ++ lit "#") st.queue)) st

-- ===== src/Queue/Manager/Recover.antt =====
-- `Recover` of manager.go: items that an earlier run of the daemon left in flight.
pub mod Settled
use asika.Prelude.{
  ℕ, Bool, true, false, Option, none, some, List, [], ◌∷◌, Bytes, lit, text_eq, Result, ok, fail,
  panic, Err, if◌then◌else◌,
}
use asika.Models.{PrRecord, QueueItem, QueueStatus}
use asika.Db.{Bucket, insert, remove}
use asika.Queue.World.{World}
use asika.Queue.Store.{State, find_pr_by_id}

abbrev pub in_flight : QueueStatus → Bool
in_flight QueueStatus.merging = true
in_flight QueueStatus.checking = true
in_flight _ = false

-- The entries to reset, in the order of the bucket.
unfoldable pub stale : Bucket (Option QueueItem) → List (Bytes × QueueItem)
stale [] = []
stale ((key, none) ∷ rest) = stale rest
stale ((key, some item) ∷ rest) =
    let others = stale rest in if in_flight item.status then (key, item) ∷ others else others

is_merged : Result PrRecord → Bool
is_merged (ok pr) = text_eq pr.state (lit "merged")
is_merged _ = false

drop_merged : World → Bytes → State → State
drop_merged w key st = elim (w.delete_error key) [
  | none ↦ record st { queue = remove key st.queue }
  | some e ↦ st
]

reset : World → Bytes → QueueItem → State → State
reset w key item st = elim (w.put_error key) [
  | none ↦
      let fresh = record item { status = QueueStatus.waiting; failure_reason = [] } in
      record st { queue = insert key (some fresh) st.queue }
  | some e ↦ st
]

pub recover_entry : World → Bytes → QueueItem → State → State
unfolding is_merged drop_merged reset
recover_entry w key item st =
    let (found, store) = find_pr_by_id w item.pr_id item.repo_group st.store in
    let st' = record st { store = store } in
    if is_merged found then drop_merged w key st' else reset w key item st'

pub recover_entries : World → List (Bytes × QueueItem) → State → State
recover_entries w [] st = st
recover_entries w ((key, item) ∷ rest) st = recover_entries w rest (recover_entry w key item st)

pub recover : World → State → State
recover w st = recover_entries w (stale st.queue) st

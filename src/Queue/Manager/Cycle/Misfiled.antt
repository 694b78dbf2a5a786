-- ===== src/Queue/Manager/Cycle/Misfiled.antt =====
-- `CheckQueue` sorts the items and not their keys.
use asika.Prelude.{ℕ, ◌≡◌, refl, true, false, Option, some, [], ◌∷◌, Bytes, arith, if◌then◌else◌}
use asika.Models.{Time, Config, QueueItem}
use asika.Db.{Bucket}
use asika.Queue.World.{World}
use asika.Queue.Store.{State}
use asika.Queue.Manager.Cycle.{
  take, classify, scan_item, scan_queue, delete_all, visit, check_items, is_put_first, insert_item,
  sort_items, before, run_pass, check_queue,
}

module _ (ws : ℕ → World) (cfg : Config) (ka kb : Bytes) (a b : QueueItem) where
  abbrev pub Both : Type 0
  Both = (classify (ws 0).now a ≡ take) × (classify (ws 0).now b ≡ take)

  scan_both :
      (q : Bucket (Option QueueItem))
      → Both
      → scan_queue (ws 0) q ((ka, some a) ∷ (kb, some b) ∷ [])
        ≡ record { items = a ∷ b ∷ []; keys = ka ∷ kb ∷ []; done_keys = []; queue = q }
  unfolding scan_queue scan_item
  scan_both q (ta, tb) = rw (ta, tb) refl

  sort_both : before b a ≡ true → sort_items (ws 0) (a ∷ b ∷ []) ≡ b ∷ a ∷ []
  unfolding sort_items insert_item is_put_first
  sort_both h = rw h refl

  check_both :
      (now : Time) (st : State)
      → check_items ws cfg now 1 (b ∷ a ∷ []) (ka ∷ kb ∷ []) st ≡ (
          if (visit (ws 1) cfg now ka b st).1
          then (visit (ws 2) cfg now kb a (visit (ws 1) cfg now ka b st).0).0
          else (visit (ws 1) cfg now ka b st).0)
  unfolding check_items
  check_both now st = ground arith

  -- With the queue holding just `a` under `ka` and `b` under `kb`, both to be checked, and `b` before `a` in the
  -- order of the sort, a pass of `CheckQueue`, with no other pass running, checks `b` under `ka` and then, unless a panic ended
  -- the pass, `a` under `kb`.
  pub check_queue-misfiled :
      (st : State)
      → Both
      → before b a ≡ true
      → st.busy ≡ false
      → st.queue ≡ (ka, some a) ∷ (kb, some b) ∷ []
      → check_queue ws cfg st ≡ (
          let now = (ws 0).now in
          let (st', goes_on) = visit (ws 1) cfg now ka b (record st { busy = true }) in
          record (if goes_on then (visit (ws 2) cfg now kb a st').0 else st') { busy = false })
  unfolding check_queue run_pass delete_all
  check_queue-misfiled st both sorts free holds =
      rw (free, holds)
        (rw (scan_both _ both) (rw (sort_both sorts) (rw (check_both (ws 0).now) refl)))

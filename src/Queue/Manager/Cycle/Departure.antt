-- ===== src/Queue/Manager/Cycle/Departure.antt =====
-- Why an entry leaves the queue in the second loop of `CheckQueue`.
use asika.Prelude.{
  ◌≢◌, ◌≡◌, ◌⊎◌, refl, ap, inl, inr, Bool, true, false, Option, none, some, List, Bytes,
  text_eq_refl, Result, ok, fail, panic, Err, Bool-cases, arith,
}
use asika.Models.{Time, PrRecord, Config, QueueItem}
use asika.Db.{Bucket, lookup}
use asika.Db.Laws.{lookup-insert}
use asika.Queue.World.{World}
use asika.Queue.Store.Missing.{IsVoid}
use asika.Queue.Store.Again.{HasUniqueKeys, find_pr_by_id-get_pr_from_db}
use asika.Queue.Store.{State, Merged, get_pr_by_index, get_pr_from_db, find_pr_by_id}
use asika.Queue.Checker.Approvals.{is_transient_error}
use asika.Queue.Checker.Merge.Identity.{should_merge-identity}
use asika.Queue.Checker.Merge.Safety.{IsMergeable, should_merge-eq-yes}
use asika.Queue.Manager.Merge.{merge}
use asika.Queue.Manager.Merge.Frame.{merge-queue}
use asika.Queue.Manager.Merge.Safety.{HasMerged, merge-HasMerged}
use asika.Queue.Manager.Cycle.{
  put, store_item, after_merge, as_merging, settle, check_item, visit, is_scheduled_later,
  after_check, verdict, failed_item, as_checking,
}

-- A write under a key that the queue has leaves an entry there.
put-ne-none :
    (w : World) (key : Bytes) (item : QueueItem) (q : Bucket (Option QueueItem))
    {x : Option QueueItem}
    → lookup key q ≡ some x
    → lookup key (put w key item q) ≢ none
unfolding put
put-ne-none w key item q h gone =
    ground (arith, h, gone, text_eq_refl key, lookup-insert key key (some item) q)

store_item-ne-none :
    (w : World) (key : Bytes) (item : QueueItem) (st : State) {x : Option QueueItem}
    → lookup key st.queue ≡ some x
    → lookup key (store_item w key item st).queue ≢ none
unfolding store_item
store_item-ne-none w key item st h = put-ne-none w key item st.queue h

module _ (w : World) (cfg : Config) (key : Bytes) where
  after_merge-departs :
      (item : QueueItem) (r : Option Err × State) {x : Option QueueItem}
      → lookup key r.1.queue ≡ some x
      → lookup key (after_merge w key item r).queue ≡ none
      → (r.0 ≡ none) × ((after_merge w key item r).merges ≡ r.1.merges)
  unfolding after_merge
  after_merge-departs item (none, st) h gone = (refl, refl)
  after_merge-departs item (some e, st) h gone =
      absurd (store_item-ne-none w key (failed_item w e item) st h gone)

  settle-departs :
      (r : Result Bool) (item : QueueItem) (st : State) {x : Option QueueItem}
      → lookup key st.queue ≡ some x
      → lookup key (settle w cfg key r item st).0.queue ≡ none
      → (r ≡ ok true)
        × ((merge w cfg (as_merging item) st).0 ≡ none)
        × ((settle w cfg key r item st).0.merges ≡ (merge w cfg (as_merging item) st).1.merges)
  unfolding settle store_item
  settle-departs (fail e) item st h gone = elim (Bool-cases (is_transient_error e)) [
    | inl t ↦ absurd (store_item-ne-none w key _ st h (rw t at gone))
    | inr f ↦ absurd (store_item-ne-none w key _ st h (rw f at gone))
  ]
  settle-departs (ok true) item st {x} h gone =
      let (merged, same) =
        after_merge-departs (as_merging item) (merge w cfg (as_merging item) st) {x = x}
          (rw (merge-queue w cfg (as_merging item) st) h) gone in
      (refl, merged, same)
  settle-departs (ok false) item st h gone = absurd (store_item-ne-none w key _ st h gone)
  settle-departs panic item st h gone = cc

-- What is true when an item leaves the queue: it is due, the checker found its pull request with
-- every gate passed, and the platform merged the pull request that `FindPRByID` found, which is the
-- checked one if `GetPRByIndex` finds a record that decodes.
pub record HasDeparted (w : World) (cfg : Config) (now : Time) (item : QueueItem) (st : State)
    (merges : List Merged) : Type 0 where
  pub due-lem : is_scheduled_later now item ≡ false
  pub pr : PrRecord
  pub found-lem : (get_pr_from_db w item.repo_group item.pr_id st.store).0 ≡ ok pr
  pub mergeable-lem : IsMergeable w cfg pr (as_checking now item)
  pub merged_pr : PrRecord
  pub merged_found-lem :
      (find_pr_by_id w item.pr_id item.repo_group
        (get_pr_from_db w item.repo_group item.pr_id st.store).1).0
      ≡ ok merged_pr
  pub same-lem : (merged_pr ≡ pr) ⊎ IsVoid (get_pr_by_index item.pr_id item.repo_group 0 st.store).0
  pub merged-lem : HasMerged w cfg merged_pr st.merges merges

check_item-departs :
    (w : World) (cfg : Config) (now : Time) (key : Bytes) (item : QueueItem) (st : State)
    {x : Option QueueItem}
    → HasUniqueKeys st.store.prs
    → is_scheduled_later now item ≡ false
    → lookup key st.queue ≡ some x
    → lookup key (check_item w cfg now key item st).0.queue ≡ none
    → HasDeparted w cfg now item st (check_item w cfg now key item st).0.merges
unfolding check_item after_check verdict as_merging as_checking
check_item-departs w cfg now key item st unique due h gone =
    let (sure, merged, same) =
      settle-departs w cfg key (verdict w cfg now item st).0 (verdict w cfg now item st).1
        (after_check w cfg now item st) h gone in
    let (pr, found, mergeable) = should_merge-eq-yes w cfg _ (as_checking now item) sure in
    let same_item =
      should_merge-identity w cfg (get_pr_from_db w item.repo_group item.pr_id st.store).0
        (as_checking now item) in
    let (merged_pr, merged_found, has_merged) =
      merge-HasMerged w cfg _ (after_check w cfg now item st) merged in
    let finds : (find_pr_by_id w item.pr_id item.repo_group
          (get_pr_from_db w item.repo_group item.pr_id st.store).1).0
        ≡ ok merged_pr =
      rw (ap (λ i. i.0) same_item, ap (λ i. i.1) same_item) at merged_found in
    record {
      due-lem = due;
      pr = pr;
      found-lem = found;
      mergeable-lem = mergeable;
      merged_pr = merged_pr;
      merged_found-lem = finds;
      same-lem =
          find_pr_by_id-get_pr_from_db w item.pr_id item.repo_group st.store pr merged_pr unique
            found finds;
      merged-lem = rw same has_merged;
    }

-- An entry that the queue has leaves it in the visit of an item under its key only if the item is
-- due, the checker found a pull request for it with every gate passed, and the platform merged the
-- pull request that `FindPRByID` found for it. If the keys of the records are distinct, as in a
-- bucket, that is the pull request that was checked, unless `GetPRByIndex` finds no record for the
-- item or one that does not decode.
pub visit-HasDeparted :
    (w : World) (cfg : Config) (now : Time) (key : Bytes) (item : QueueItem) (st : State)
    {x : Option QueueItem}
    → HasUniqueKeys st.store.prs
    → lookup key st.queue ≡ some x
    → lookup key (visit w cfg now key item st).0.queue ≡ none
    → HasDeparted w cfg now item st (visit w cfg now key item st).0.merges
unfolding visit
visit-HasDeparted w cfg now key item st unique h gone =
    elim (Bool-cases (is_scheduled_later now item)) [
      | inl later ↦ absurd (ground (arith, h, gone, later))
      | inr due ↦ rw due (check_item-departs w cfg now key item st unique due h (rw due at gone))
    ]

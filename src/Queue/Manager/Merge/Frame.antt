-- ===== src/Queue/Manager/Merge/Frame.antt =====
-- `merge` does not touch the queue: only its caller settles the entry.
use asika.Prelude.{
  ◌≡◌, refl, inl, inr, Option, none, some, Bytes, Result, ok, fail, panic, Option-cases, arith,
}
use asika.Models.{RepoGroup, PrRecord, Config, QueueItem}
use asika.Config.{get_repo_group_by_name}
use asika.Queue.World.{World, Client}
use asika.Queue.Store.{State, find_pr_by_id}
use asika.Queue.Manager.Merge.{merge, merge_found, merge_in_group, merge_on, save_pr}

save_pr-queue : (w : World) (pr : PrRecord) (st : State) → (save_pr w pr st).1.queue ≡ st.queue
unfolding save_pr
save_pr-queue w pr st = ground arith

merge_on-queue :
    (w : World) (pr : PrRecord) (group : RepoGroup) (client : Client) (owner repo : Bytes)
    (st : State)
    → (merge_on w pr group client owner repo st).1.queue ≡ st.queue
unfolding merge_on save_pr
merge_on-queue w pr group client owner repo st = ground arith

merge_in_group-queue :
    (w : World) (pr : PrRecord) (group : Option RepoGroup) (st : State)
    → (merge_in_group w pr group st).1.queue ≡ st.queue
unfolding merge_in_group
merge_in_group-queue w pr none st = refl
merge_in_group-queue w pr (some group) st = grind (arith, merge_on-queue)

merge_found-queue :
    (w : World) (cfg : Config) (found : Result PrRecord) (st : State)
    → (merge_found w cfg found st).1.queue ≡ st.queue
unfolding merge_found
merge_found-queue w cfg (fail e) st = refl
merge_found-queue w cfg panic st = refl
merge_found-queue w cfg (ok pr) st = elim (Option-cases (w.clients pr.platform)) [
  | inl h ↦ rw (h, merge_found) refl
  | inr (c, h) ↦
      rw (h, merge_found) (merge_in_group-queue w pr (get_repo_group_by_name cfg pr.repo_group) st)
]

pub merge-queue :
    (w : World) (cfg : Config) (item : QueueItem) (st : State)
    → (merge w cfg item st).1.queue ≡ st.queue
unfolding merge
merge-queue w cfg item st =
    merge_found-queue w cfg (find_pr_by_id w item.pr_id item.repo_group st.store).0
      (record st { store = (find_pr_by_id w item.pr_id item.repo_group st.store).1 })

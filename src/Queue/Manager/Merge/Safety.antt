-- ===== src/Queue/Manager/Merge/Safety.antt =====
-- A merge that reports no error went through the platform.
use asika.Prelude.{
  ◌≡◌, refl, inl, inr, Option, none, some, List, [], ◌∷◌, ◌++◌, Bytes, Result, ok, fail, panic,
  Option-cases, Result-cases, arith,
}
use asika.Models.{RepoGroup, PrRecord, Config, QueueItem}
use asika.Config.{get_repo_group_by_name}
use asika.Queue.World.{World, Client}
use asika.Queue.Store.{State, Merged, find_pr_by_id}
use asika.Queue.Checker.Approvals.{resolve_repo}
use asika.Queue.Manager.Method.{select_merge_method}
use asika.Queue.Manager.Merge.{merge, merge_found, merge_in_group, merge_on, save_pr, rebase_first}

-- The platform was told once to merge the pull request, by the method that the group selects, and
-- it did so.
pub record HasMerged (w : World) (cfg : Config) (pr : PrRecord) (before after : List Merged)
    : Type 0 where
  pub group : RepoGroup
  pub group-lem : get_repo_group_by_name cfg pr.repo_group ≡ some group
  pub client : Client
  pub owner : Bytes
  pub repo : Bytes
  pub repo-lem : resolve_repo w pr group [] ≡ ok (client, owner, repo)
  pub rebase-lem : rebase_first w pr group client owner repo ≡ none
  pub call-lem :
      client.merge_pr owner repo pr.pr_number (select_merge_method w pr group client owner repo)
      ≡ none
  pub merges-lem :
      after
      ≡ before
        ++ record {
          platform = pr.platform;
          owner = owner;
          repo = repo;
          number = pr.pr_number;
          method = select_merge_method w pr group client owner repo;
        }
          ∷ []

save_pr-merges : (w : World) (pr : PrRecord) (st : State) → (save_pr w pr st).1.merges ≡ st.merges
unfolding save_pr
save_pr-merges w pr st = ground arith

module _ (w : World) (cfg : Config) (pr : PrRecord) (st : State) where
  merge_on-HasMerged :
      (group : RepoGroup) (client : Client) (owner repo : Bytes)
      → get_repo_group_by_name cfg pr.repo_group ≡ some group
      → resolve_repo w pr group [] ≡ ok (client, owner, repo)
      → (merge_on w pr group client owner repo st).0 ≡ none
      → HasMerged w cfg pr st.merges (merge_on w pr group client owner repo st).1.merges
  unfolding merge_on
  merge_on-HasMerged group client owner repo named found h =
      let method = select_merge_method w pr group client owner repo in
      elim (Option-cases (rebase_first w pr group client owner repo)) [
        | inr (e, k) ↦ ground (arith, h, k)
        | inl k ↦ elim (Option-cases (client.merge_pr owner repo pr.pr_number method)) [
          | inr (e, c) ↦ ground (arith, h, k, c)
          | inl c ↦ record {
            group = group;
            group-lem = named;
            client = client;
            owner = owner;
            repo = repo;
            repo-lem = found;
            rebase-lem = k;
            call-lem = c;
            merges-lem = rw (k, merge_on) (rw (c, merge_on) (save_pr-merges w _ _));
          }
        ]
      ]

  merge_in_group-HasMerged :
      (group : Option RepoGroup)
      → get_repo_group_by_name cfg pr.repo_group ≡ group
      → (merge_in_group w pr group st).0 ≡ none
      → HasMerged w cfg pr st.merges (merge_in_group w pr group st).1.merges
  unfolding merge_in_group
  merge_in_group-HasMerged none named h = cc
  merge_in_group-HasMerged (some group) named h = elim (Result-cases (resolve_repo w pr group [])) [
    | inr (inl (e, k)) ↦ ground (arith, h, k)
    | inr (inr k) ↦ ground (arith, h, k)
    | inl ((client, owner, repo), k) ↦
        let e : merge_in_group w pr (some group) st ≡ merge_on w pr group client owner repo st =
          rw (k, merge_in_group) refl in
        rw e (merge_on-HasMerged group client owner repo named k (cc))
  ]

merge_found-HasMerged :
    (w : World) (cfg : Config) (found : Result PrRecord) (st : State)
    → (merge_found w cfg found st).0 ≡ none
    → (pr : PrRecord) × (found ≡ ok pr)
      × HasMerged w cfg pr st.merges (merge_found w cfg found st).1.merges
unfolding merge_found
merge_found-HasMerged w cfg (fail e) st h = cc
merge_found-HasMerged w cfg panic st h = cc
merge_found-HasMerged w cfg (ok pr) st h = elim (Option-cases (w.clients pr.platform)) [
  | inl k ↦ ground (arith, h, k)
  | inr (c, k) ↦
      let r = merge_in_group w pr (get_repo_group_by_name cfg pr.repo_group) st in
      let e : merge_found w cfg (ok pr) st ≡ r = rw (k, merge_found) refl in
      (pr, refl, rw e (merge_in_group-HasMerged w cfg pr st _ refl (cc)))
]

pub merge-HasMerged :
    (w : World) (cfg : Config) (item : QueueItem) (st : State)
    → (merge w cfg item st).0 ≡ none
    → (pr : PrRecord) × ((find_pr_by_id w item.pr_id item.repo_group st.store).0 ≡ ok pr)
      × HasMerged w cfg pr st.merges (merge w cfg item st).1.merges
unfolding merge
merge-HasMerged w cfg item st h =
    merge_found-HasMerged w cfg (find_pr_by_id w item.pr_id item.repo_group st.store).0
      (record st { store = (find_pr_by_id w item.pr_id item.repo_group st.store).1 }) h

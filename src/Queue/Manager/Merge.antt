-- ===== src/Queue/Manager/Merge.antt =====
-- `merge` and `tryRebaseBeforeMerge` of manager.go.
pub mod Frame
pub mod Safety
use asika.Prelude.{
  inl, inr, ℕ, Bool, true, false, not, Option, none, some, List, [], ◌∷◌, ◌++◌, Bytes, lit, Result,
  ok, fail, panic, Err, plain, error_text, if◌then◌else◌,
}
use asika.Models.{RepoGroup, PrRecord, Config, QueueItem}
use asika.Config.{get_repo_group_by_name}
use asika.Queue.Expr.Values.{show_nat}
use asika.Queue.World.{World, Client}
use asika.Queue.Store.{State, Merged, find_pr_by_id, put_pr_with_index}
use asika.Queue.Checker.Approvals.{resolve_repo}
use asika.Queue.Manager.Method.{select_merge_method}

unfoldable pub rebase_with : World → PrRecord → Client → Bytes → Bytes → Option Err
rebase_with w pr client owner repo = elim (client.get_pr_branch_info owner repo pr.pr_number) [
  | inl e ↦ some (plain (lit "failed to get branch info: " ++ error_text e))
  | inr info ↦
      if not info.maintainer_can_modify
      then some (plain (lit "PR author has not enabled 'allow edits from maintainers'"))
      else elim (w.rebase pr.platform owner repo info) [
        | none ↦ none
        | some e ↦ some (plain (lit "rebase failed: " ++ error_text e))
      ]
]

-- `tryRebaseBeforeMerge`, if the group asks for linear history; `none` is no error.
unfoldable pub rebase_first : World → PrRecord → RepoGroup → Client → Bytes → Bytes → Option Err
unfolding rebase_with
rebase_first w pr group client owner repo =
    if group.merge_queue.fast_forward_only
    then elim (rebase_with w pr client owner repo) [
      | none ↦ none
      | some e ↦ some (plain (lit "fast-forward rebase failed: " ++ error_text e))
    ]
    else none

-- The record after the merge: what the platform reports, or the state "merged".
unfoldable pub refreshed : World → PrRecord → Result (Option PrRecord) → PrRecord
refreshed w pr (ok (some updated)) = record pr {
  state = updated.state;
  merge_commit_sha = updated.merge_commit_sha;
  updated_at = updated.updated_at;
}
refreshed w pr _ = record pr { state = lit "merged"; updated_at = w.now }

unfoldable pub pr_key : PrRecord → Bytes
pr_key pr = pr.repo_group ++ (lit "#" ++ (pr.platform ++ (lit "#" ++ show_nat pr.pr_number)))

unfoldable pub save_pr : World → PrRecord → State → Option Err × State
unfolding pr_key
save_pr w pr st = elim (w.put_error (pr_key pr)) [
  | some e ↦ (some (plain (lit "save PR after merge: " ++ error_text e)), st)
  | none ↦ (
    none,
    record st {
      store = put_pr_with_index (pr_key pr) pr pr.id pr.repo_group pr.pr_number st.store;
    },
  )
]

-- The calls of the platform: the rebase, the merge, and the record as it is afterwards.
unfoldable pub merge_on :
    World → PrRecord → RepoGroup → Client → Bytes → Bytes → State → Option Err × State
merge_on w pr group client owner repo st =
    let method = select_merge_method w pr group client owner repo in
    elim (rebase_first w pr group client owner repo) [
      | some e ↦ (some e, st)
      | none ↦ elim (client.merge_pr owner repo pr.pr_number method) [
        | some e ↦ (some e, st)
        | none ↦
            let merged : Merged = record {
              platform = pr.platform;
              owner = owner;
              repo = repo;
              number = pr.pr_number;
              method = method;
            } in
            save_pr w (refreshed w pr (client.get_pr owner repo pr.pr_number))
              (record st { merges = st.merges ++ merged ∷ [] })
      ]
    ]

unfoldable pub merge_in_group : World → PrRecord → Option RepoGroup → State → Option Err × State
merge_in_group w pr none st = (some (plain (lit "repo group not found: " ++ pr.repo_group)), st)
merge_in_group w pr (some group) st = elim (resolve_repo w pr group []) [
  | fail e ↦ (some e, st)
  | panic ↦ (some (plain []), st)
  | ok (client, owner, repo) ↦ merge_on w pr group client owner repo st
]

unfoldable pub merge_found : World → Config → Result PrRecord → State → Option Err × State
merge_found w cfg (fail e) st = (some e, st)
merge_found w cfg panic st = (some (plain []), st)
merge_found w cfg (ok pr) st = elim (w.clients pr.platform) [
  | none ↦ (some (plain (lit "no client for platform: " ++ pr.platform)), st)
  | some client ↦ merge_in_group w pr (get_repo_group_by_name cfg pr.repo_group) st
]

unfoldable pub merge : World → Config → QueueItem → State → Option Err × State
merge w cfg item st =
    let (found, store) = find_pr_by_id w item.pr_id item.repo_group st.store in
    merge_found w cfg found (record st { store = store })

-- ===== src/Stale/Check.antt =====
-- The loops of stale.go: `CheckRepoGroup`, its dry run and `HandleActivity`.
use asika.Prelude.{
  true, false, not, ◌&&◌, ◌||◌, Option, none, some, List, [], ◌∷◌, ◌++◌, Bytes, lit, text_eq,
  is_empty, Result, ok, fail, panic, if◌then◌else◌,
}
use asika.Prelude.Int.{geq_int}
use asika.Models.{Config, RepoGroup, PrRecord}
use asika.Models.Rules.{StaleConfig}
use asika.Config.{get_owner_repo_from_group, get_repo_groups, group_platforms}
use asika.Queue.World.{World, Client}
use asika.Stale.{
  StaleWorld, StaleState, StaleAction, Done, has_label, label_base, days_inactive,
  is_author_excluded, is_exempt, is_due_to_close, analyze_pr, called, remove_label, mark_stale,
  auto_close,
}

unfoldable pub process_pr :
    StaleWorld → StaleConfig → Client → Bytes → Bytes → Bytes → PrRecord → StaleState → StaleState
unfolding has_label label_base days_inactive is_author_excluded is_exempt is_due_to_close mark_stale
    auto_close
process_pr w cfg client group owner repo pr st =
    let has_stale_label = has_label pr.labels (label_base cfg) in
    if cfg.skip_draft_prs && pr.is_draft
    then st
    else if is_author_excluded cfg pr
    then st
    else if is_exempt cfg pr
    then st
    else if not has_stale_label && geq_int (days_inactive w pr) cfg.days_until_stale
    then mark_stale w cfg client group owner repo pr st
    else if has_stale_label && is_due_to_close w cfg pr
    then auto_close cfg client group owner repo pr st
    else st

unfoldable pub process_listed :
    StaleWorld
    → StaleConfig
    → Client
    → Bytes
    → Bytes
    → Bytes
    → List (Option PrRecord)
    → StaleState
    → StaleState
unfolding process_pr
process_listed w cfg client group owner repo [] st = st
process_listed w cfg client group owner repo (none ∷ prs) st =
    process_listed w cfg client group owner repo prs st
process_listed w cfg client group owner repo (some pr ∷ prs) st =
    process_listed w cfg client group owner repo prs
      (process_pr w cfg client group owner repo pr st)

unfoldable pub process_list :
    StaleWorld
    → StaleConfig
    → Client
    → Bytes
    → Bytes
    → Bytes
    → Result (List (Option PrRecord))
    → StaleState
    → Done
unfolding process_listed
process_list w cfg client group owner repo (ok prs) st =
    (true, process_listed w cfg client group owner repo prs st)
process_list w cfg client group owner repo (fail e) st = (true, st)
process_list w cfg client group owner repo panic st = (false, st)

-- The client, the owner and the repository of a platform, if all are known.
unfoldable pub reach : World → RepoGroup → Bytes → Option (Client × Bytes × Bytes)
reach w group platform = elim (w.clients platform) [
  | none ↦ none
  | some client ↦
      let (owner, repo) = get_owner_repo_from_group group platform in
      if is_empty owner || is_empty repo then none else some (client, owner, repo)
]

unfoldable pub process_platforms :
    StaleWorld → StaleConfig → RepoGroup → List Bytes → StaleState → Done
unfolding process_list reach
process_platforms w cfg group [] st = (true, st)
process_platforms w cfg group (platform ∷ platforms) st = elim (reach w.world group platform) [
  | none ↦ process_platforms w cfg group platforms st
  | some (client, owner, repo) ↦
      let (running, st') =
        process_list w cfg client group.name owner repo (client.list_prs owner repo) st in
      elim running [ true ↦ process_platforms w cfg group platforms st' | false ↦ (false, st') ]
]

unfoldable pub check_repo_group : StaleWorld → Config → RepoGroup → StaleState → Done
unfolding process_platforms
check_repo_group w cfg group st = process_platforms w cfg.stale group (group_platforms group) st

check_groups : StaleWorld → Config → List RepoGroup → StaleState → Done
unfolding check_repo_group
check_groups w cfg [] st = (true, st)
check_groups w cfg (group ∷ groups) st =
    let (running, st') = check_repo_group w cfg group st in
    elim running [ true ↦ check_groups w cfg groups st' | false ↦ (false, st') ]

pub check_all_groups : StaleWorld → Config → StaleState → Done
unfolding check_groups
check_all_groups w cfg st =
    if cfg.stale.enabled then check_groups w cfg (get_repo_groups cfg) st else (true, st)

-- The action with its platform and its repository.
unfoldable pub located : Bytes → Bytes → Bytes → StaleAction → StaleAction
located platform owner repo act = record act {
  platform = platform;
  repo = owner ++ (lit "/" ++ repo);
}

unfoldable pub act_if : Bytes → Bytes → Bytes → Option StaleAction → List StaleAction
unfolding located
act_if platform owner repo none = []
act_if platform owner repo (some act) = located platform owner repo act ∷ []

unfoldable pub analyze_listed :
    StaleWorld → StaleConfig → Bytes → Bytes → Bytes → List (Option PrRecord) → List StaleAction
unfolding act_if analyze_pr
analyze_listed w cfg platform owner repo [] = []
analyze_listed w cfg platform owner repo (none ∷ prs) = analyze_listed w cfg platform owner repo prs
analyze_listed w cfg platform owner repo (some pr ∷ prs) =
    act_if platform owner repo (analyze_pr w cfg pr) ++ analyze_listed w cfg platform owner repo prs

unfoldable pub analyze_list :
    StaleWorld
    → StaleConfig
    → Bytes
    → Bytes
    → Bytes
    → Result (List (Option PrRecord))
    → Option (List StaleAction)
unfolding analyze_listed
analyze_list w cfg platform owner repo (ok prs) =
    some (analyze_listed w cfg platform owner repo prs)
analyze_list w cfg platform owner repo (fail e) = some []
analyze_list w cfg platform owner repo panic = none

unfoldable pub then_also :
    Option (List StaleAction) → Option (List StaleAction) → Option (List StaleAction)
then_also none later = none
then_also (some acts) none = none
then_also (some acts) (some later) = some (acts ++ later)

unfoldable pub analyze_platforms :
    StaleWorld → StaleConfig → RepoGroup → List Bytes → Option (List StaleAction)
unfolding analyze_list reach then_also
analyze_platforms w cfg group [] = some []
analyze_platforms w cfg group (platform ∷ platforms) =
    let later = analyze_platforms w cfg group platforms in
    elim (reach w.world group platform) [
      | none ↦ later
      | some (client, owner, repo) ↦
          then_also (analyze_list w cfg platform owner repo (client.list_prs owner repo)) later
    ]

-- The actions; `none` is a run-time panic of a call.
unfoldable pub check_repo_group_dry_run :
    StaleWorld → Config → RepoGroup → Option (List StaleAction)
unfolding analyze_platforms
check_repo_group_dry_run w cfg group = analyze_platforms w cfg.stale group (group_platforms group)

-- The label is taken away on every platform of the group.
pub remove_stale_label : World → PrRecord → RepoGroup → Bytes → List Bytes → StaleState → StaleState
unfolding reach called
remove_stale_label w pr group label [] st = st
remove_stale_label w pr group label (platform ∷ platforms) st = elim (reach w group platform) [
  | none ↦ remove_stale_label w pr group label platforms st
  | some (client, owner, repo) ↦
      remove_stale_label w pr group label platforms
        (called (remove_label (owner, repo) pr.pr_number label) st)
]

pub remove_in : World → PrRecord → Bytes → Bytes → List RepoGroup → StaleState → StaleState
unfolding remove_stale_label
remove_in w pr name label [] st = st
remove_in w pr name label (group ∷ groups) st =
    let rest = remove_in w pr name label groups st in
    if text_eq group.name name
    then remove_stale_label w pr group label (group_platforms group) st
    else rest

pub handle_activity : World → Config → PrRecord → Bytes → StaleState → StaleState
unfolding label_base has_label remove_in
handle_activity w cfg pr name st =
    if not cfg.stale.enabled || not cfg.stale.remove_on_activity
    then st
    else if not (has_label pr.labels (label_base cfg.stale))
    then st
    else remove_in w pr name (label_base cfg.stale) (get_repo_groups cfg) st

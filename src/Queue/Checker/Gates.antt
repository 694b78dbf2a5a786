-- ===== src/Queue/Checker/Gates.antt =====
-- The gates of checker.go behind the path rules: size limits, the template, the security scan, auto-rebase.
pub mod Frame
pub mod Sound
use asika.Prelude.{
  inl, inr, ℕ, ◌+◌, Bool, true, false, not, ◌&&◌, ◌||◌, Option, none, some, List, [], ◌∷◌, ◌++◌,
  Bytes, lit, text_eq, is_empty, trim_space, length, any, count, ltb, Result, ok, fail, panic, Err,
  plain, transient, prefix_error, if◌then◌else◌,
}
use asika.Prelude.Int.{ℤ, pos, lt_int}
use asika.Models.{
  RepoGroup, PrRecord, PrSizeConfig, PrTemplateConfig, ApprovalRule, DiffFile, SecurityAlert,
}
use asika.Config.{get_owner_repo_from_group, get_platform_for_group}
use asika.Queue.World.{World, Client}
use asika.Queue.Check.{Check, CheckState, pure, throw, lift, get_pr, set_pr, add_label, ◌>>=◌, ◌>>◌}
use asika.Queue.Checker.Approvals.{resolve_repo}
use asika.Queue.Checker.Paths.{mem}
use asika.Queue.Checker.Checklist.{Checklist, validate_checklist}

unfoldable pub total_lines : List DiffFile → ℕ
total_lines [] = 0
total_lines (df ∷ rest) = df.additions + df.deletions + total_lines rest

unfoldable pub is_exempt : List Bytes → List Bytes → Bool
is_exempt exempt labels = any (mem labels) exempt

-- `limit > 0 && total > limit`
unfoldable pub exceeds : ℕ → ℤ → Bool
exceeds total limit = lt_int (pos 0) limit && lt_int limit (pos total)

unfoldable pub is_too_big : PrSizeConfig → List DiffFile → Bool
unfolding exceeds
is_too_big cfg files =
    cfg.block_merge
    && (exceeds (total_lines files) cfg.lines_changed_block
        || exceeds (length files) cfg.files_changed_block)

unfoldable pub is_large : PrSizeConfig → List DiffFile → Bool
unfolding exceeds
is_large cfg files =
    exceeds (total_lines files) cfg.lines_changed_warn
    || exceeds (length files) cfg.files_changed_warn

unfoldable pub label_unless_empty : {I : Type 0} → Bytes → Check I Unit
label_unless_empty label = if is_empty label then pure tt else add_label label

unfoldable pub size_verdict : {I : Type 0} → PrSizeConfig → List DiffFile → Check I Bool
unfolding label_unless_empty
size_verdict cfg files =
    if is_too_big cfg files
    then (do label_unless_empty cfg.big_pr_label; pure false)
    else if is_large cfg files
    then (do label_unless_empty cfg.warn_pr_label; pure true)
    else pure true

-- The diff is fetched, and its error returned, before the labels are looked at.
unfoldable pub check_pr_size : {I : Type 0} → World → RepoGroup → Check I Bool
check_pr_size w group = do
  pr ← get_pr
  (client, owner, repo) ← lift (resolve_repo w pr group [])
  files ←
      lift
        (prefix_error (lit "failed to get PR diff: ") (client.get_pr_diff owner repo pr.pr_number))
  if is_exempt group.pr_size_limits.exempt_labels pr.labels
      then pure true
      else size_verdict group.pr_size_limits files

-- The description, fetched from the platform if the record has none.
unfoldable pub pr_body : World → PrRecord → RepoGroup → Bytes
pr_body w pr group = if not (is_empty pr.body) then pr.body else elim (resolve_repo w pr group []) [
  | ok (client, owner, repo) ↦ elim (client.get_pr_body owner repo pr.pr_number) [
    | ok fetched ↦ fetched
    | fail e ↦ []
    | panic ↦ []
  ]
  | fail e ↦ []
  | panic ↦ []
]

unfoldable pub is_body_missing : PrTemplateConfig → Bytes → Bool
is_body_missing cfg body = cfg.require_body && (is_empty body || ltb (length (trim_space body)) 10)

unfoldable pub is_checklist_open : PrTemplateConfig → Bytes → Bool
is_checklist_open cfg body =
    cfg.require_checklist
    && (ltb 0 (validate_checklist body).total && not (validate_checklist body).complete)

unfoldable pub label_if_resolved :
    {I : Type 0} → World → PrRecord → RepoGroup → Bytes → Check I Unit
unfolding label_unless_empty
label_if_resolved w pr group label = elim (resolve_repo w pr group []) [
  | ok _ ↦ label_unless_empty label
  | fail e ↦ pure tt
  | panic ↦ pure tt
]

unfoldable pub check_pr_template : {I : Type 0} → World → RepoGroup → Check I Bool
check_pr_template w group = do
  pr ← get_pr
  let cfg = group.pr_template
  let body = pr_body w pr group
  if is_exempt cfg.exempt_labels pr.labels
      then pure true
      else if is_body_missing cfg body && cfg.block_merge
      then pure false
      else if is_checklist_open cfg body
      then (do label_if_resolved w pr group cfg.incomplete_label; pure (not cfg.block_merge))
      else pure true

-- `pr.Platform`, or the platform of the group where the record names none.
unfoldable pub platform_of : PrRecord → RepoGroup → Bytes
platform_of pr group = if is_empty pr.platform then get_platform_for_group group else pr.platform

-- The client and the repository, if the group has both.
unfoldable pub find_repo : World → PrRecord → RepoGroup → Option (Client × Bytes × Bytes)
unfolding platform_of
find_repo w pr group = elim (w.clients (platform_of pr group)) [
  | none ↦ none
  | some client ↦
      let (owner, repo) = get_owner_repo_from_group group (platform_of pr group) in
      if is_empty owner || is_empty repo then none else some (client, owner, repo)
]

-- The end of `checkSecurity`, with the answer of the platform. It writes the alerts into the record.
unfoldable pub record_alerts : {I : Type 0} → PrRecord → Result (List SecurityAlert) → Check I Bool
record_alerts pr (fail e) = throw (transient e)
record_alerts pr panic = lift panic
record_alerts pr (ok []) = do
  set_pr (record pr { security_blocked = false; security_alerts = [] })
  pure true
record_alerts pr (ok (alert ∷ alerts)) = do
  set_pr (record pr { security_blocked = true; security_alerts = alert ∷ alerts })
  pure false

unfoldable pub scans : RepoGroup → Bool
scans group =
    group.merge_queue.security_scan.enabled && group.merge_queue.security_scan.block_on_alerts

unfoldable pub ask_alerts : {I : Type 0} → PrRecord → Option (Client × Bytes × Bytes) → Check I Bool
ask_alerts pr none = pure true
ask_alerts pr (some (client, owner, repo)) =
    record_alerts pr (client.has_security_alerts owner repo pr.pr_number)

unfoldable pub check_security : {I : Type 0} → World → RepoGroup → Check I Bool
check_security w group = do
  pr ← get_pr
  if not (scans group) then pure true else ask_alerts pr (find_repo w pr group)

is_none {ℓ} : {A : Type ℓ} → Option A → Bool
is_none none = true
is_none (some a) = false

-- Whether the conflict could be removed by a rebase.
unfoldable pub try_auto_rebase : World → PrRecord → RepoGroup → Bool
unfolding is_none
try_auto_rebase w pr group = elim (find_repo w pr group) [
  | none ↦ false
  | some (client, owner, repo) ↦ elim (client.get_pr_branch_info owner repo pr.pr_number) [
    | inl e ↦ false
    | inr info ↦
        info.maintainer_can_modify && is_none (w.rebase (platform_of pr group) owner repo info)
  ]
]

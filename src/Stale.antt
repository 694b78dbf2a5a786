-- ===== src/Stale.antt =====
-- daemon/stale/stale.go: pull requests without activity are marked and later closed.
pub mod Check
pub mod Requests
pub mod Plan
pub mod Tests
use asika.Prelude.{
  ℕ, ◌+◌, ◌==◌, Bool, true, false, not, ◌&&◌, ◌||◌, Option, none, some, List, [], ◌∷◌, ◌++◌, Bytes,
  lit, text_eq, is_empty, any, Result, ok, fail, panic, Err, if◌then◌else◌,
}
use asika.Prelude.Int.{ℤ, pos, negsuc, lt_int, geq_int, ◌+ℤ◌, neg}
use asika.Models.{Time, is_zero, Config, RepoGroup, PrRecord}
use asika.Models.Rules.{StaleConfig}
use asika.Config.{get_owner_repo_from_group, get_repo_groups, group_platforms}
use asika.Queue.Expr.Values.{show_nat}
use asika.Queue.World.{World, Client}

pub record CommentData : Type 0 where
  pub days : ℤ
  pub close_in : Bytes
  pub exempt_label : Bytes

-- The clients and the clock, the whole days between two times (in float64) and the template of
-- package text/template.
pub record StaleWorld : Type 1 where
  pub world : World
  pub days_between : Time → Time → ℤ
  pub render : Bytes → CommentData → Option Bytes

-- A call of a platform's client that changes a pull request.
pub data Call : Type 0 where
  -- Owner and repository, number, and the label or the text.
  add_label remove_label comment : Bytes × Bytes → ℕ → Bytes → Call
  close : Bytes × Bytes → ℕ → Call

pub data Event : Type 0 where
  pr_labeled pr_closed : Bytes → PrRecord → Event

-- The calls, those of `sendNotification` with their groups and titles, and the events, oldest first.
pub record StaleState : Type 0 where
  pub calls : List Call
  pub notices : List (Bytes × Bytes)
  pub events : List Event

-- Whether the check goes on, with the state: `false` is a run-time panic of a call.
abbrev pub Done : Type 0
Done = Bool × StaleState

pub data ActionType : Type 0 where
  mark close skip : ActionType

pub record StaleAction : Type 0 where
  pub type : ActionType
  pub platform : Bytes
  pub repo : Bytes
  pub pr_number : ℕ
  pub reason : Bytes

unfoldable pub has_label : List Bytes → Bytes → Bool
has_label [] target = false
has_label (l ∷ labels) target = text_eq l target || has_label labels target

pub label_base : StaleConfig → Bytes
label_base cfg = if is_empty cfg.stale_label then lit "stale" else cfg.stale_label

pub last_activity_time : PrRecord → Time
last_activity_time pr = if not (is_zero pr.updated_at) then pr.updated_at else pr.created_at

pub inactivity_days : StaleWorld → Time → ℤ
inactivity_days w last = if is_zero last then pos 0 else w.days_between last w.world.now

pub is_author_excluded : StaleConfig → PrRecord → Bool
is_author_excluded cfg pr = any (λ excluded. text_eq pr.author excluded) cfg.exclude_authors

unfoldable pub is_exempt : StaleConfig → PrRecord → Bool
unfolding has_label
is_exempt cfg pr = any (has_label pr.labels) cfg.exempt_labels

abbrev pub signed : ℤ → Bytes
signed (pos n) = show_nat n
signed (negsuc n) = lit "-" ++ show_nat (n + 1)

pub days_inactive : StaleWorld → PrRecord → ℤ
unfolding inactivity_days last_activity_time
days_inactive w pr = inactivity_days w (last_activity_time pr)

-- `DaysUntilClose > 0` and the days for both steps have passed.
pub is_due_to_close : StaleWorld → StaleConfig → PrRecord → Bool
unfolding days_inactive
is_due_to_close w cfg pr =
    lt_int (pos 0) cfg.days_until_close
    && geq_int (days_inactive w pr) (cfg.days_until_stale +ℤ cfg.days_until_close)

pub action : ActionType → PrRecord → Bytes → StaleAction
action type pr reason = record {
  type = type;
  platform = [];
  repo = [];
  pr_number = pr.pr_number;
  reason = reason;
}

-- `none` is the empty action.
pub analyze_pr : StaleWorld → StaleConfig → PrRecord → Option StaleAction
unfolding has_label label_base days_inactive is_author_excluded is_exempt is_due_to_close action
analyze_pr w cfg pr =
    let has_stale_label = has_label pr.labels (label_base cfg) in
    let days = days_inactive w pr in
    if cfg.skip_draft_prs && pr.is_draft
    then some (action skip pr (lit "draft PR"))
    else if is_author_excluded cfg pr
    then some (action skip pr (lit "excluded author"))
    else if is_exempt cfg pr
    then some (action skip pr (lit "exempt label"))
    else if has_stale_label && is_due_to_close w cfg pr
    then some (
        action close pr (
          lit "stale for "
          ++ (signed (days +ℤ neg cfg.days_until_stale)
              ++ (lit " days, inactive for " ++ (signed days ++ lit " days total")))))
    else if not has_stale_label && geq_int days cfg.days_until_stale
    then some (action mark pr (lit "inactive for " ++ (signed days ++ lit " days")))
    else none

pub close_in : StaleWorld → StaleConfig → PrRecord → Bytes
unfolding days_inactive
close_in w cfg pr =
    if lt_int (pos 0) cfg.days_until_close
    then (let remaining =
          cfg.days_until_close +ℤ neg (days_inactive w pr +ℤ neg cfg.days_until_stale) in
        signed (if lt_int remaining (pos 0) then pos 0 else remaining) ++ lit " days")
    else lit "never"

pub first_or_empty : List Bytes → Bytes
first_or_empty [] = []
first_or_empty (l ∷ labels) = l

pub stale_comment : StaleWorld → StaleConfig → PrRecord → Bytes
unfolding close_in first_or_empty days_inactive
stale_comment w cfg pr =
    let body =
      if is_empty cfg.comment_on_stale
      then lit "This PR has been marked as stale due to {{.Days}} days of inactivity."
      else cfg.comment_on_stale in
    let data' : CommentData = record {
      days = days_inactive w pr;
      close_in = close_in w cfg pr;
      exempt_label = first_or_empty cfg.exempt_labels;
    } in
    elim (w.render body data') [ some rendered ↦ rendered | none ↦ body ]

pub called : Call → StaleState → StaleState
called call st = record st { calls = st.calls ++ call ∷ [] }

-- Behind a label that was set: errors of the comment and of notices are logged.
pub marked : StaleWorld → StaleConfig → Bytes → Bytes → Bytes → PrRecord → StaleState → StaleState
unfolding stale_comment called
marked w cfg group owner repo pr st =
    let st' = called (comment (owner, repo) pr.pr_number (stale_comment w cfg pr)) st in
    record st' {
      notices =
          if cfg.notify_on_stale
          then st'.notices ++ (group, lit "PR Marked Stale") ∷ []
          else st'.notices;
      events = st'.events ++ pr_labeled group pr ∷ [];
    }

pub mark_stale :
    StaleWorld → StaleConfig → Client → Bytes → Bytes → Bytes → PrRecord → StaleState → StaleState
unfolding label_base called marked
mark_stale w cfg client group owner repo pr st =
    let label = label_base cfg in
    let st' = called (add_label (owner, repo) pr.pr_number label) st in
    elim (client.add_label owner repo pr.pr_number label (lit "cccccc")) [
      | some e ↦ st'
      | none ↦ marked w cfg group owner repo pr st'
    ]

pub close_comment : StaleConfig → Bytes
close_comment cfg =
    if is_empty cfg.comment_on_close
    then lit "Automatically closed due to inactivity."
    else cfg.comment_on_close

pub auto_close : StaleConfig → Client → Bytes → Bytes → Bytes → PrRecord → StaleState → StaleState
unfolding called close_comment
auto_close cfg client group owner repo pr st =
    let st' = called (close (owner, repo) pr.pr_number) st in
    elim (client.close_pr owner repo pr.pr_number) [
      | some e ↦ st'
      | none ↦
          let st'' = called (comment (owner, repo) pr.pr_number (close_comment cfg)) st' in
          record st'' {
            notices = st''.notices ++ (group, lit "PR Closed (Stale)") ∷ [];
            events = st''.events ++ pr_closed group pr ∷ [];
          }
    ]

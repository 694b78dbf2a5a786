-- ===== src/Queue/Pending/Kept.antt =====
-- When a check may drop a pending pull request.
use asika.Prelude.{◌≡◌, true, some, ok}
use asika.Models.{Config, PrRecord}
use asika.Db.{lookup}
use asika.Queue.Store.{get_pr_from_db, join_key}
use asika.Queue.Store.Missing.{IsMissing}
use asika.Queue.Checker.Ready.Safety.{IsReady}
use asika.Queue.Manager.Admit.{is_some}
use asika.Queue.Pending.{PendingPr, PendingWorld, PendingState, entry_key, is_over}

module _ (w : PendingWorld) (cfg : Config) (p : PendingPr) (st : PendingState) where
  -- Why the entry may go.
  pub data Reason (after : PendingState) : Type 0 where
    missing : IsMissing w.world p.repo_group p.pr_id st.main.store → Reason after
    over :
        (pr : PrRecord)
        → (get_pr_from_db w.world p.repo_group p.pr_id st.main.store).0 ≡ ok pr
        → is_over pr ≡ true
        → Reason after
    queued :
        (pr : PrRecord)
        → (get_pr_from_db w.world p.repo_group p.pr_id st.main.store).0 ≡ ok pr
        → IsReady w.world cfg pr
        → is_some (lookup (join_key pr.repo_group pr.id) after.main.queue) ≡ true
        → Reason after

  -- The entry of the pull request is there, or there is a reason why not.
  pub data IsKept (after : PendingState) : Type 0 where
    kept :
        (p' : PendingPr)
        → lookup (entry_key p) after.pending ≡ some (some p')
        → p'.pr_id ≡ p.pr_id
        → IsKept after
    gone : Reason after → IsKept after

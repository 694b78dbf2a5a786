-- ===== src/Queue/Pending.antt =====
-- daemon/queue/pending.go, with `PutPendingPR`, `DeletePendingPR` and `ListPendingPRs` of
-- common/db/bbolt_notifications.go: pull requests that wait for promotion to the merge queue.
pub mod Kept
pub mod Tests
use asika.Prelude.{
  ℕ, Bool, true, false, not, ◌||◌, Option, none, some, List, [], ◌∷◌, ◌++◌, Bytes, lit, text_eq,
  Result, ok, fail, panic, Err, if◌then◌else◌,
}
use asika.Models.{Time, Config, PrRecord}
use asika.Db.{Bucket, insert, remove}
use asika.Queue.Expr.Values.{show_nat}
use asika.Queue.World.{World}
use asika.Queue.Store.{State, get_pr_from_db}
use asika.Queue.Checker.Ready.{is_ready_to_merge}
use asika.Queue.Manager.Admit.{add_to_queue}

pub record PendingPr : Type 0 where
  pub pr_id : Bytes
  pub repo_group : Bytes
  pub platform : Bytes
  pub pr_number : ℕ
  pub title : Bytes
  pub author : Bytes
  pub approval_count : ℕ
  pub added_at : Time
  pub last_checked : Time

-- The world of the queue, and the errors of the database on the bucket of pending entries.
pub record PendingWorld : Type 1 where
  pub world : World
  pub pending_put_error : Bytes → Option Err
  pub pending_delete_error : Bytes → Option Err

pub record PendingState : Type 0 where
  pub pending : Bucket (Option PendingPr)
  pub main : State

pub pending_key : Bytes → Bytes → ℕ → Bytes
pending_key group platform number = group ++ (lit "#" ++ (platform ++ (lit "#" ++ show_nat number)))

pub entry_key : PendingPr → Bytes
unfolding pending_key
entry_key p = pending_key p.repo_group p.platform p.pr_number

-- An error is logged, or ignored.
pub put_pending_pr : PendingWorld → PendingPr → PendingState → PendingState
put_pending_pr w p st = elim (w.pending_put_error (entry_key p)) [
  | some e ↦ st
  | none ↦ record st { pending = insert (entry_key p) (some p) st.pending }
]

pub delete_pending_pr : PendingWorld → PendingPr → PendingState → PendingState
delete_pending_pr w p st = elim (w.pending_delete_error (entry_key p)) [
  | some e ↦ st
  | none ↦ record st { pending = remove (entry_key p) st.pending }
]

pub list_pending_prs : Bucket (Option PendingPr) → List PendingPr
list_pending_prs [] = []
list_pending_prs ((k, none) ∷ m) = list_pending_prs m
list_pending_prs ((k, some p) ∷ m) = p ∷ list_pending_prs m

pub add_pending : PendingWorld → PrRecord → ℕ → PendingState → PendingState
unfolding put_pending_pr
add_pending w pr approval_count st =
    put_pending_pr w
      (record {
        pr_id = pr.id;
        repo_group = pr.repo_group;
        platform = pr.platform;
        pr_number = pr.pr_number;
        title = pr.title;
        author = pr.author;
        approval_count = approval_count;
        added_at = w.world.now;
        last_checked = w.world.now;
      })
      st

-- Whether the goroutine goes on, with the state: `false` is a run-time panic of a call.
abbrev pub Done : Type 0
Done = Bool × PendingState

pub put_checked : PendingWorld → PendingPr → PendingState → Done
unfolding put_pending_pr
put_checked w p st = (true, put_pending_pr w (record p { last_checked = w.world.now }) st)

pub promoted : PendingWorld → PendingPr → Option Err → PendingState → Done
unfolding delete_pending_pr
promoted w p (some e) st = (true, st)
promoted w p none st = (true, delete_pending_pr w p st)

pub promote : PendingWorld → Config → PendingPr → PrRecord → PendingState → Done
unfolding promoted
promote w cfg p pr st =
    let (err, pr', main) = add_to_queue w.world cfg pr st.main in
    promoted w p err (record st { main = main })

-- The record that the checks leave, and the labels that they set.
pub check_ready :
    PendingWorld
    → Config
    → PendingPr
    → Result Bool × Option PrRecord × List Bytes
    → PendingState
    → Done
unfolding put_checked promote
check_ready w cfg p (ok true, some pr, labels) st =
    promote w cfg p pr (record st { main = record st.main { labeled = st.main.labeled ++ labels } })
check_ready w cfg p (panic, pr, labels) st = (false, st)
check_ready w cfg p (_, pr, labels) st =
    put_checked w p (record st { main = record st.main { labeled = st.main.labeled ++ labels } })

pub is_over : PrRecord → Bool
is_over pr = not (text_eq pr.state (lit "open")) || (pr.is_draft || pr.spam_flag)

pub check_found : PendingWorld → Config → PendingPr → Result PrRecord → PendingState → Done
unfolding delete_pending_pr is_over check_ready
check_found w cfg p (ok pr) st =
    if is_over pr
    then (true, delete_pending_pr w p st)
    else check_ready w cfg p (is_ready_to_merge w.world cfg (some pr)) st
check_found w cfg p (fail e) st = (true, delete_pending_pr w p st)
check_found w cfg p panic st = (false, st)

pub check_one : PendingWorld → Config → PendingPr → PendingState → Done
unfolding check_found
check_one w cfg p st =
    let (found, store) = get_pr_from_db w.world p.repo_group p.pr_id st.main.store in
    check_found w cfg p found (record st { main = record st.main { store = store } })

-- The world of an entry is the one at its turn.
pub check_listed : (Bytes → PendingWorld) → Config → List PendingPr → PendingState → Done
unfolding check_one
check_listed ws cfg [] st = (true, st)
check_listed ws cfg (p ∷ ps) st =
    let (running, st') = check_one (ws (entry_key p)) cfg p st in
    elim running [ true ↦ check_listed ws cfg ps st' | false ↦ (false, st') ]

pub check_all : (Bytes → PendingWorld) → Config → PendingState → Done
unfolding check_listed list_pending_prs
check_all ws cfg st = check_listed ws cfg (list_pending_prs st.pending) st

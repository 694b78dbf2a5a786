-- ===== src/Queue/Serial.antt =====
-- daemon/queue/serial_worker.go: the validation of queue items one after the other. A `time.Since`
-- is a truncated difference, since the code only asks whether it is long. `QueueItem` marshals
-- without an error.
pub mod Moves
pub mod Machine
pub mod Tick
pub mod Tests
use asika.Prelude.{
  ℕ, ◌-◌, ◌*◌, Bool, true, false, not, ◌||◌, Option, none, some, List, [], ◌∷◌, ◌++◌, Bytes, lit,
  text_eq, ltb, Result, ok, fail, panic, Err, plain, error_text, get_last?, ◌>>=◌, if◌then◌else◌,
}
use asika.Models.{
  minute, Config, RepoGroup, PrRecord, PrBranchInfo, QueueItem, QueueStatus, ValidationStatus,
}
use asika.Prelude.Int.{pos}
use asika.Config.{get_repo_group_by_name, get_owner_repo_from_group}
use asika.Db.{Bucket, insert}
use asika.Queue.World.{result_of, World, Client}
use asika.Queue.Store.{State, join_key, find_pr_by_id}

-- What the worker calls besides: `gitutil.RebaseAndPush` of a branch of platform, owner and
-- repository, and the errors of the database on the worker's own bucket.
pub record SerialWorld : Type 1 where
  pub world : World
  pub rebase_and_push : Bytes → Bytes → Bytes → PrBranchInfo → Option Err
  pub serial_put_error : Bytes → Option Err

pub record SerialState : Type 0 where
  pub serial : Bucket (Option QueueItem)
  pub main : State

-- Whether the goroutine goes on, with the state: `false` is a run-time panic of a call.
abbrev pub Done : Type 0
Done = Bool × SerialState

-- `if err != nil { … }` behind a call.
pub handle {ℓ} : {A : Type ℓ} → Result A → SerialState → (A → Done) → (Err → Done) → Done
handle (ok a) st next failed = next a
handle (fail e) st next failed = failed e
handle panic st next failed = (false, st)

pub put_serial : SerialWorld → Bytes → QueueItem → SerialState → SerialState
put_serial w key item st = elim (w.serial_put_error key) [
  | some e ↦ st
  | none ↦ record st { serial = insert key (some item) st.serial }
]

pub update_item : SerialWorld → QueueItem → Bytes → SerialState → Done
unfolding put_serial
update_item w item key st = (true, put_serial w key item st)

pub with_status : ValidationStatus → Bytes → QueueItem → QueueItem
with_status status detail item = record item {
  validation_status = status;
  validation_detail = detail;
}

-- `fail`
pub fail_item : SerialWorld → QueueItem → Bytes → Bytes → SerialState → Done
unfolding update_item with_status
fail_item w item key reason st =
    update_item w
      (record (with_status ValidationStatus.validation_failed reason item) {
        failure_reason = reason;
      })
      key st

unfoldable pub enqueue : SerialWorld → QueueItem → SerialState → Option Err × SerialState
enqueue w item st =
    let key = join_key item.repo_group item.pr_id in
    let validating = record item {
      validation_status = ValidationStatus.validating;
      validation_started = w.world.now;
    } in
    elim (w.serial_put_error key) [
      | some e ↦ (some e, st)
      | none ↦ (none, record st { serial = insert key (some validating) st.serial })
    ]

pub rebase_branch :
    SerialWorld → PrRecord → Bytes → Bytes → PrBranchInfo → QueueItem → Bytes → SerialState → Done
unfolding fail_item update_item with_status
rebase_branch w pr owner repo info item key st =
    if not info.maintainer_can_modify
    then fail_item w item key (lit "PR author has not enabled 'allow edits from maintainers'") st
    else elim (w.rebase_and_push pr.platform owner repo info) [
      | some e ↦ fail_item w item key (lit "rebase+push failed: " ++ error_text e) st
      | none ↦
          update_item w
            (with_status ValidationStatus.waiting_ci (lit "rebased and pushed, waiting for CI")
              item)
            key st
    ]

pub rebase_on : SerialWorld → PrRecord → RepoGroup → Client → QueueItem → Bytes → SerialState → Done
unfolding handle rebase_branch fail_item
rebase_on w pr group client item key st =
    let (owner, repo) = get_owner_repo_from_group group pr.platform in
    handle (result_of (client.get_pr_branch_info owner repo pr.pr_number)) st
      (λ info. rebase_branch w pr owner repo info item key st)
      (λ e. fail_item w item key (lit "failed to get branch info: " ++ error_text e) st)

pub rebase_found : SerialWorld → Config → PrRecord → QueueItem → Bytes → SerialState → Done
unfolding rebase_on fail_item
rebase_found w cfg pr item key st = elim (get_repo_group_by_name cfg pr.repo_group) [
  | none ↦ fail_item w item key (lit "repo group not found") st
  | some group ↦ elim (w.world.clients pr.platform) [
    | none ↦ fail_item w item key (lit "no client for platform: " ++ pr.platform) st
    | some client ↦ rebase_on w pr group client item key st
  ]
]

-- `FindPRByID`, and the failure of the item where there is no record.
pub with_pr : SerialWorld → QueueItem → Bytes → SerialState → (PrRecord → SerialState → Done) → Done
unfolding handle fail_item
with_pr w item key st next =
    let (found, store) = find_pr_by_id w.world item.pr_id item.repo_group st.main.store in
    let st' = record st { main = record st.main { store = store } } in
    handle found st' (λ pr. next pr st')
      (λ e. fail_item w item key (lit "PR not found: " ++ error_text e) st')

pub start_rebase : SerialWorld → Config → QueueItem → Bytes → SerialState → Done
unfolding with_pr rebase_found
start_rebase w cfg item key st = with_pr w item key st (λ pr. rebase_found w cfg pr item key)

pub check_rebase_status : SerialWorld → QueueItem → Bytes → SerialState → Done
unfolding fail_item
check_rebase_status w item key st =
    if ltb (10 * minute) (w.world.now - item.validation_started)
    then fail_item w item key (lit "rebase timed out after 10 minutes") st
    else (true, st)

pub last_status : Client → Bytes → Bytes → List Bytes → Result Bytes
last_status client owner repo commits = elim (get_last? commits) [
  | none ↦ fail (plain (lit "no commits found"))
  | some sha ↦ client.get_ci_status owner repo sha
]

pub status_on : Client → Bytes × Bytes → ℕ → Result Bytes
unfolding last_status
status_on client (owner, repo) number = do
  commits ← client.get_pr_commits owner repo number
  last_status client owner repo commits

pub get_ci_status : SerialWorld → Config → PrRecord → Result Bytes
unfolding status_on
get_ci_status w cfg pr = elim (get_repo_group_by_name cfg pr.repo_group) [
  | none ↦ fail (plain (lit "repo group not found"))
  | some group ↦ elim (w.world.clients pr.platform) [
    | none ↦ fail (plain (lit "no client for platform: " ++ pr.platform))
    | some client ↦ status_on client (get_owner_repo_from_group group pr.platform) pr.pr_number
  ]
]

pub is_success : Bytes → Bool
is_success status = text_eq status (lit "success")

pub has_failed : Bytes → Bool
has_failed status = text_eq status (lit "failure") || text_eq status (lit "error")

pub is_running : Bytes → Bool
is_running status = text_eq status (lit "pending") || text_eq status (lit "running")

pub passed : QueueItem → QueueItem
unfolding with_status
passed item = with_status ValidationStatus.ready (lit "CI passed, ready to merge") item

pub wait_verdict : SerialWorld → QueueItem → Bytes → Bytes → SerialState → Done
unfolding update_item with_status fail_item passed
wait_verdict w item key status st =
    if is_running status
    then update_item w (with_status ValidationStatus.ci_running (lit "CI running") item) key st
    else if is_success status
    then update_item w (passed item) key st
    else if has_failed status
    then fail_item w item key (lit "CI failed") st
    else update_item w (with_status ValidationStatus.ready (lit "CI status: " ++ status) item) key
        st

pub wait_for_ci : SerialWorld → Config → QueueItem → Bytes → SerialState → Done
unfolding with_pr handle wait_verdict
wait_for_ci w cfg item key st = with_pr w item key st (λ pr s.
    handle (get_ci_status w cfg pr) s (λ status. wait_verdict w item key status s) (λ e. (true, s)))

pub poll_verdict : SerialWorld → QueueItem → Bytes → Bytes → SerialState → Done
unfolding update_item fail_item passed
poll_verdict w item key status st =
    if is_success status
    then update_item w (passed item) key st
    else if has_failed status
    then fail_item w item key (lit "CI failed") st
    else if ltb (30 * minute) (w.world.now - item.validation_started)
    then fail_item w item key (lit "CI timed out after 30 minutes") st
    else (true, st)

pub poll_ci_status : SerialWorld → Config → QueueItem → Bytes → SerialState → Done
unfolding with_pr handle poll_verdict
poll_ci_status w cfg item key st = with_pr w item key st (λ pr s.
    handle (get_ci_status w cfg pr) s (λ status. poll_verdict w item key status s) (λ e. (true, s)))

-- An error of the database is logged.
pub update_main_queue : SerialWorld → QueueItem → SerialState → SerialState
update_main_queue w item st =
    let key = join_key item.repo_group item.pr_id in
    elim (w.world.put_error key) [
      | some e ↦ st
      | none ↦ record st { main = record st.main { queue = insert key (some item) st.main.queue } }
    ]

abbrev pub complete : Bytes
complete = lit "serial validation complete, ready for merge"

-- The item that the main queue gets: five fields are set, the others are Go's zero values.
pub main_item : QueueItem → QueueItem
main_item item = record {
  pr_id = item.pr_id;
  repo_group = item.repo_group;
  status = QueueStatus.ready;
  added_at = item.added_at;
  last_checked = 0;
  failure_reason = [];
  retry_count = 0;
  next_retry_at = 0;
  criteria = record { required_approvals = pos 0; approved_by = []; ci_status = [] };
  schedule_at = 0;
  validation_status = ValidationStatus.unset;
  validation_started = 0;
  validation_detail = complete;
  priority = pos 0;
  security_blocked = false;
  security_override = [];
}

pub mark_mergeable : SerialWorld → QueueItem → Bytes → SerialState → Done
unfolding put_serial main_item update_main_queue
mark_mergeable w item key st =
    let marked = record item { status = QueueStatus.ready; validation_detail = complete } in
    (true, update_main_queue w (main_item marked) (put_serial w key marked st))

pub process_by : ValidationStatus → SerialWorld → Config → QueueItem → Bytes → SerialState → Done
unfolding start_rebase check_rebase_status wait_for_ci poll_ci_status mark_mergeable
process_by ValidationStatus.validating w cfg item key st = start_rebase w cfg item key st
process_by ValidationStatus.rebasing w cfg item key st = check_rebase_status w item key st
process_by ValidationStatus.waiting_ci w cfg item key st = wait_for_ci w cfg item key st
process_by ValidationStatus.ci_running w cfg item key st = poll_ci_status w cfg item key st
process_by ValidationStatus.ready w cfg item key st = mark_mergeable w item key st
process_by _ w cfg item key st = (true, st)

pub process_one : SerialWorld → Config → QueueItem → Bytes → SerialState → Done
unfolding process_by
process_one w cfg item key st = process_by item.validation_status w cfg item key st

-- The entries are read before the first one is processed; those that do not parse are passed over.
-- The world of an entry is the one at its turn: clocks and answers move on.
pub process_all : (Bytes → SerialWorld) → Config → Bucket (Option QueueItem) → SerialState → Done
unfolding process_one
process_all ws cfg [] st = (true, st)
process_all ws cfg ((key, none) ∷ rest) st = process_all ws cfg rest st
process_all ws cfg ((key, some item) ∷ rest) st =
    let (running, st') = process_one (ws key) cfg item key st in
    elim running [ true ↦ process_all ws cfg rest st' | false ↦ (false, st') ]

-- One tick.
pub process : (Bytes → SerialWorld) → Config → SerialState → Done
unfolding process_all
process ws cfg st = process_all ws cfg st.serial st

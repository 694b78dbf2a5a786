-- ===== src/Queue/Serial/Machine.antt =====
-- What one turn of the worker does to the item.
use asika.Prelude.{
  ◌≡◌, refl, ap, inl, inr, true, none, some, Bytes, if-lem, Bool-cases, Option-cases, arith,
}
use asika.Models.{Config, RepoGroup, PrRecord, PrBranchInfo, QueueItem, ValidationStatus}
use asika.Config.{get_repo_group_by_name, get_owner_repo_from_group}
use asika.Db.{lookup}
use asika.Queue.World.{result_of, Client}
use asika.Queue.Serial.{
  SerialWorld, SerialState, Done, handle, put_serial, complete, rebase_branch, rebase_on,
  rebase_found, start_rebase, check_rebase_status, get_ci_status, is_success, has_failed,
  is_running, passed, wait_verdict, wait_for_ci, poll_verdict, poll_ci_status, update_main_queue,
  main_item, mark_mergeable, process_by, process_one,
}
use asika.Queue.Serial.Moves.{
  HasPushed, is_live, IsRecord, Reports, stays, waits, runs, passes, succeeds, HasMoved, HasStayed,
  put_serial-HasMoved, fail_item-HasMoved, update_item-HasMoved, handle-lem, with_pr-HasMoved,
}

module _ (w : SerialWorld) (cfg : Config) (item : QueueItem) (st : SerialState) (key : Bytes) where
  rebase_branch-HasMoved :
      (pr : PrRecord) (group : RepoGroup) (client : Client) (owner repo : Bytes)
      (info : PrBranchInfo) (s : SerialState)
      → lookup key s.serial ≡ some (some item)
      → item.validation_status ≡ ValidationStatus.validating
      → IsRecord w cfg item st pr
      → (info.maintainer_can_modify ≡ true
          → w.rebase_and_push pr.platform owner repo info ≡ none
          → HasPushed w cfg pr)
      → HasMoved w cfg item st key (rebase_branch w pr owner repo info item key s).1
  unfolding rebase_branch
  rebase_branch-HasMoved pr group client owner repo info s h new found pushed =
      let live : is_live item.validation_status ≡ true = ap is_live new in
      elim (Bool-cases info.maintainer_can_modify) [
        | inr k ↦ rw (k, rebase_branch) (fail_item-HasMoved w cfg item st key _ s h live)
        | inl k ↦ elim (Option-cases (w.rebase_and_push pr.platform owner repo info)) [
          | inr (e, l) ↦ rw (l, k, rebase_branch) (fail_item-HasMoved w cfg item st key _ s h live)
          | inl l ↦
              rw (l, k, rebase_branch)
                (update_item-HasMoved w cfg item st key ValidationStatus.waiting_ci _ s h
                  (waits new refl pr found (pushed k l)))
        ]
      ]

  rebase_found-HasMoved :
      (pr : PrRecord) (s : SerialState)
      → lookup key s.serial ≡ some (some item)
      → item.validation_status ≡ ValidationStatus.validating
      → IsRecord w cfg item st pr
      → HasMoved w cfg item st key (rebase_found w cfg pr item key s).1
  unfolding rebase_found rebase_on
  rebase_found-HasMoved pr s h new found =
      let live : is_live item.validation_status ≡ true = ap is_live new in
      elim (Option-cases (get_repo_group_by_name cfg pr.repo_group)) [
        | inl k ↦ rw (k, rebase_found) (fail_item-HasMoved w cfg item st key _ s h live)
        | inr (group, k) ↦ elim (Option-cases (w.world.clients pr.platform)) [
          | inl l ↦ rw (k, l, rebase_found) (fail_item-HasMoved w cfg item st key _ s h live)
          | inr (client, l) ↦
              rw (k, l, rebase_found)
                (let (owner, repo) = get_owner_repo_from_group group pr.platform in
                  handle-lem (HasMoved w cfg item st key)
                    (result_of (client.get_pr_branch_info owner repo pr.pr_number)) s _ _
                    (HasStayed w cfg item st key s h)
                    (λ info i.
                      rebase_branch-HasMoved pr group client owner repo info s h new found
                        (λ may push. record {
                          group = group;
                          group-lem = k;
                          client = client;
                          client-lem = l;
                          owner = owner;
                          repo = repo;
                          repo-lem = refl;
                          info = info;
                          info-lem = i;
                          modify-lem = may;
                          push-lem = push;
                        }))
                    (λ e. fail_item-HasMoved w cfg item st key _ s h live))
        ]
      ]

  wait_verdict-HasMoved :
      (pr : PrRecord) (status : Bytes) (s : SerialState)
      → lookup key s.serial ≡ some (some item)
      → item.validation_status ≡ ValidationStatus.waiting_ci
      → Reports w cfg item st pr status
      → HasMoved w cfg item st key (wait_verdict w item key status s).1
  unfolding wait_verdict passed
  wait_verdict-HasMoved pr status s h at reports =
      let live : is_live item.validation_status ≡ true = ap is_live at in
      elim (Bool-cases (is_running status)) [
        | inl k ↦
            rw (k, wait_verdict)
              (update_item-HasMoved w cfg item st key _ _ s h (runs at refl pr status reports k))
        | inr k ↦ elim (Bool-cases (is_success status)) [
          | inl l ↦
              rw (k, l, wait_verdict)
                (update_item-HasMoved w cfg item st key _ _ s h
                  (passes at refl pr status reports k (inl l)))
          | inr l ↦ elim (Bool-cases (has_failed status)) [
            | inl m ↦ rw (k, l, m, wait_verdict) (fail_item-HasMoved w cfg item st key _ s h live)
            | inr m ↦
                rw (k, l, m, wait_verdict)
                  (update_item-HasMoved w cfg item st key _ _ s h
                    (passes at refl pr status reports k (inr m)))
          ]
        ]
      ]

  poll_verdict-HasMoved :
      (pr : PrRecord) (status : Bytes) (s : SerialState)
      → lookup key s.serial ≡ some (some item)
      → item.validation_status ≡ ValidationStatus.ci_running
      → Reports w cfg item st pr status
      → HasMoved w cfg item st key (poll_verdict w item key status s).1
  unfolding poll_verdict passed
  poll_verdict-HasMoved pr status s h at reports =
      let live : is_live item.validation_status ≡ true = ap is_live at in
      elim (Bool-cases (is_success status)) [
        | inl l ↦
            rw (l, poll_verdict)
              (update_item-HasMoved w cfg item st key _ _ s h
                (succeeds at refl pr status reports l))
        | inr l ↦
            rw (l, poll_verdict)
              (if-lem (λ (d : Done). HasMoved w cfg item st key d.1) (has_failed status) _ _
                (fail_item-HasMoved w cfg item st key _ s h live)
                (if-lem (λ (d : Done). HasMoved w cfg item st key d.1) _ _ _
                  (fail_item-HasMoved w cfg item st key _ s h live)
                  (HasStayed w cfg item st key s h)))
      ]

  update_main_queue-serial :
      (to : QueueItem) (s : SerialState) → (update_main_queue w to s).serial ≡ s.serial
  unfolding update_main_queue
  update_main_queue-serial to s = ground arith

  mark_mergeable-HasMoved :
      lookup key st.serial ≡ some (some item)
      → HasMoved w cfg item st key (mark_mergeable w item key st).1
  unfolding mark_mergeable
  mark_mergeable-HasMoved h =
      let marked = record item {
        status = asika.Models.QueueStatus.ready;
        validation_detail = complete;
      } in
      let moved = put_serial-HasMoved w cfg item st key marked st h refl refl (stays refl) in
      record {
        to = moved.to;
        entry-lem =
            rw (update_main_queue-serial (main_item marked) (put_serial w key marked st))
              moved.entry-lem;
        id-lem = moved.id-lem;
        group-lem = moved.group-lem;
        move = moved.move;
      }

  process_by-HasMoved :
      (s : ValidationStatus)
      → item.validation_status ≡ s
      → lookup key st.serial ≡ some (some item)
      → HasMoved w cfg item st key (process_by s w cfg item key st).1
  unfolding process_by start_rebase check_rebase_status wait_for_ci poll_ci_status
  process_by-HasMoved ValidationStatus.validating at h =
      with_pr-HasMoved w cfg item st key h (ap is_live at) (λ pr. rebase_found w cfg pr item key)
        (λ pr s found same. rebase_found-HasMoved pr s same at found)
  process_by-HasMoved ValidationStatus.rebasing at h =
      if-lem (λ (d : Done). HasMoved w cfg item st key d.1) _ _ _
        (fail_item-HasMoved w cfg item st key _ st h (ap is_live at))
        (HasStayed w cfg item st key st h)
  process_by-HasMoved ValidationStatus.waiting_ci at h =
      with_pr-HasMoved w cfg item st key h (ap is_live at)
        (λ pr s.
          handle (get_ci_status w cfg pr) s (λ status. wait_verdict w item key status s)
            (λ e. (true, s)))
        (λ pr s found same.
          handle-lem (HasMoved w cfg item st key) (get_ci_status w cfg pr) s
            (λ status. wait_verdict w item key status s) (λ e. (true, s))
            (HasStayed w cfg item st key s same)
            (λ status reported. wait_verdict-HasMoved pr status s same at (found, reported))
            (λ e. HasStayed w cfg item st key s same))
  process_by-HasMoved ValidationStatus.ci_running at h =
      with_pr-HasMoved w cfg item st key h (ap is_live at)
        (λ pr s.
          handle (get_ci_status w cfg pr) s (λ status. poll_verdict w item key status s)
            (λ e. (true, s)))
        (λ pr s found same.
          handle-lem (HasMoved w cfg item st key) (get_ci_status w cfg pr) s
            (λ status. poll_verdict w item key status s) (λ e. (true, s))
            (HasStayed w cfg item st key s same)
            (λ status reported. poll_verdict-HasMoved pr status s same at (found, reported))
            (λ e. HasStayed w cfg item st key s same))
  process_by-HasMoved ValidationStatus.ready at h = mark_mergeable-HasMoved h
  process_by-HasMoved ValidationStatus.unset at h = HasStayed w cfg item st key st h
  process_by-HasMoved ValidationStatus.validation_failed at h = HasStayed w cfg item st key st h
  process_by-HasMoved (ValidationStatus.unknown s) at h = HasStayed w cfg item st key st h

-- One turn of an item that is in the bucket keeps the item there under its key, with its id and
-- group, whatever fails. Its validation state stays, or moves along the state machine: from
-- validating to waiting for CI only behind a push that the platform took, to ready only on a
-- status that the platform reports for the last commit and that is not running and has not failed,
-- and to failed only from a state that is not final.
pub process_one-HasMoved :
    (w : SerialWorld) (cfg : Config) (item : QueueItem) (key : Bytes) (st : SerialState)
    → lookup key st.serial ≡ some (some item)
    → HasMoved w cfg item st key (process_one w cfg item key st).1
unfolding process_one
process_one-HasMoved w cfg item key st h =
    process_by-HasMoved w cfg item st key item.validation_status refl h

-- ===== src/Queue/Serial/Tick.antt =====
-- What one tick of the worker does to the main queue.
use asika.Prelude.{
  ◌≡◌, refl, inl, inr, ◌∙◌, Bool, true, false, ◌&&◌, Option, none, some, [], ◌∷◌, Bytes, lit,
  text_eq, if-lem, Bool-cases, Option-cases, any, arith,
}
use asika.Models.{Config, RepoGroup, PrRecord, PrBranchInfo, QueueItem, ValidationStatus}
use asika.Config.{get_repo_group_by_name, get_owner_repo_from_group}
use asika.Db.{Bucket, lookup}
use asika.Db.Laws.{lookup-insert}
use asika.Queue.World.{result_of, Client}
use asika.Queue.Store.{join_key, find_pr_by_id}
use asika.Queue.Serial.{
  SerialWorld, SerialState, Done, handle, put_serial, update_item, fail_item, rebase_branch,
  rebase_on, rebase_found, with_pr, start_rebase, check_rebase_status, get_ci_status, is_success,
  has_failed, is_running, wait_verdict, wait_for_ci, poll_verdict, poll_ci_status,
  update_main_queue, main_item, mark_mergeable, process_by, process_one, process_all, process,
}
use asika.Queue.Serial.Moves.{handle-lem}

abbrev pub is_ready : ValidationStatus → Bool
is_ready ValidationStatus.ready = true
is_ready _ = false

-- The entry is ready, and belongs under the key of the main queue.
abbrev pub readies : Bytes → Bytes × Option QueueItem → Bool
readies j (key, none) = false
readies j (key, some item) =
    is_ready item.validation_status && text_eq (join_key item.repo_group item.pr_id) j

module _ (w : SerialWorld) (cfg : Config) (j : Bytes) (found : Option (Option QueueItem)) where
  abbrev Keeps : SerialState → Type 0
  Keeps s = lookup j s.main.queue ≡ found

  module _ (item : QueueItem) (key : Bytes) where
    put_serial-Keeps : (to : QueueItem) (s : SerialState) → Keeps s → Keeps (put_serial w key to s)
    unfolding put_serial
    put_serial-Keeps to s h = ground (arith, h)

    fail_item-Keeps :
        (reason : Bytes) (s : SerialState) → Keeps s → Keeps (fail_item w item key reason s).1
    unfolding fail_item update_item
    fail_item-Keeps reason s h = put_serial-Keeps _ s h

    wait_verdict-Keeps :
        (status : Bytes) (s : SerialState) → Keeps s → Keeps (wait_verdict w item key status s).1
    unfolding wait_verdict update_item
    wait_verdict-Keeps status s h =
        if-lem (λ (d : Done). Keeps d.1) (is_running status) _ _ (put_serial-Keeps _ s h)
          (if-lem (λ (d : Done). Keeps d.1) (is_success status) _ _ (put_serial-Keeps _ s h)
            (if-lem (λ (d : Done). Keeps d.1) (has_failed status) _ _ (fail_item-Keeps _ s h)
              (put_serial-Keeps _ s h)))

    poll_verdict-Keeps :
        (status : Bytes) (s : SerialState) → Keeps s → Keeps (poll_verdict w item key status s).1
    unfolding poll_verdict update_item
    poll_verdict-Keeps status s h =
        if-lem (λ (d : Done). Keeps d.1) (is_success status) _ _ (put_serial-Keeps _ s h)
          (if-lem (λ (d : Done). Keeps d.1) (has_failed status) _ _ (fail_item-Keeps _ s h)
            (if-lem (λ (d : Done). Keeps d.1) _ _ _ (fail_item-Keeps _ s h) h))

    rebase_branch-Keeps :
        (pr : PrRecord) (owner repo : Bytes) (info : PrBranchInfo) (s : SerialState)
        → Keeps s
        → Keeps (rebase_branch w pr owner repo info item key s).1
    unfolding rebase_branch update_item
    rebase_branch-Keeps pr owner repo info s h =
        elim (Option-cases (w.rebase_and_push pr.platform owner repo info)) [
          | inl k ↦
              rw (k, rebase_branch)
                (if-lem (λ (d : Done). Keeps d.1) _ _ _
                  (fail_item-Keeps (lit "PR author has not enabled 'allow edits from maintainers'")
                    s h)
                  (put_serial-Keeps _ s h))
          | inr (e, k) ↦
              rw (k, rebase_branch)
                (if-lem (λ (d : Done). Keeps d.1) _ _ _
                  (fail_item-Keeps (lit "PR author has not enabled 'allow edits from maintainers'")
                    s h)
                  (fail_item-Keeps _ s h))
        ]

    rebase_on-Keeps :
        (pr : PrRecord) (group : RepoGroup) (client : Client) (s : SerialState)
        → Keeps s
        → Keeps (rebase_on w pr group client item key s).1
    unfolding rebase_on
    rebase_on-Keeps pr group client s h =
        let (owner, repo) = get_owner_repo_from_group group pr.platform in
        handle-lem Keeps (result_of (client.get_pr_branch_info owner repo pr.pr_number)) s
          (λ info. rebase_branch w pr owner repo info item key s) _ h
          (λ info i. rebase_branch-Keeps pr owner repo info s h) (λ e. fail_item-Keeps _ s h)

    rebase_found-Keeps :
        (pr : PrRecord) (s : SerialState) → Keeps s → Keeps (rebase_found w cfg pr item key s).1
    unfolding rebase_found
    rebase_found-Keeps pr s h = elim (Option-cases (get_repo_group_by_name cfg pr.repo_group)) [
      | inl k ↦ rw (k, rebase_found) (fail_item-Keeps _ s h)
      | inr (group, k) ↦ elim (Option-cases (w.world.clients pr.platform)) [
        | inl l ↦ rw (k, l, rebase_found) (fail_item-Keeps _ s h)
        | inr (client, l) ↦ rw (k, l, rebase_found) (rebase_on-Keeps pr group client s h)
      ]
    ]

    with_pr-Keeps :
        (s : SerialState) (next : PrRecord → SerialState → Done)
        → Keeps s
        → ((pr : PrRecord) (s' : SerialState) → Keeps s' → Keeps (next pr s').1)
        → Keeps (with_pr w item key s next).1
    unfolding with_pr
    with_pr-Keeps s next h hn =
        handle-lem Keeps (find_pr_by_id w.world item.pr_id item.repo_group s.main.store).0 _ _ _ h
          (λ pr found. hn pr _ h) (λ e. fail_item-Keeps _ _ h)

    asks-Keeps :
        (s : SerialState) (verdict : Bytes → SerialState → Done)
        → Keeps s
        → ((status : Bytes) (s' : SerialState) → Keeps s' → Keeps (verdict status s').1)
        → Keeps
            (with_pr w item key s (λ pr s'.
              handle (get_ci_status w cfg pr) s' (λ status. verdict status s') (λ e. (true, s')))).1
    asks-Keeps s verdict h hv =
        with_pr-Keeps s
          (λ pr s'.
            handle (get_ci_status w cfg pr) s' (λ status. verdict status s') (λ e. (true, s')))
          h
          (λ pr s' h'.
            handle-lem Keeps (get_ci_status w cfg pr) s' (λ status. verdict status s') _ h'
              (λ status reported. hv status s' h') (λ e. h'))

    update_main_queue-Keeps :
        (to : QueueItem) (s : SerialState)
        → text_eq (join_key to.repo_group to.pr_id) j ≡ false
        → Keeps s
        → Keeps (update_main_queue w to s)
    unfolding update_main_queue
    update_main_queue-Keeps to s other h =
        let k = join_key to.repo_group to.pr_id in
        ground (arith, h, other, lookup-insert k j (some to) s.main.queue)

    mark_mergeable-Keeps :
        (s : SerialState)
        → text_eq (join_key item.repo_group item.pr_id) j ≡ false
        → Keeps s
        → Keeps (mark_mergeable w item key s).1
    unfolding mark_mergeable main_item
    mark_mergeable-Keeps s other h = update_main_queue-Keeps _ _ other (put_serial-Keeps _ s h)

    process_by-Keeps :
        (at : ValidationStatus) (s : SerialState)
        → (is_ready at && text_eq (join_key item.repo_group item.pr_id) j) ≡ false
        → Keeps s
        → Keeps (process_by at w cfg item key s).1
    unfolding process_by start_rebase check_rebase_status wait_for_ci poll_ci_status
    process_by-Keeps ValidationStatus.validating s n h =
        with_pr-Keeps s (λ pr. rebase_found w cfg pr item key) h
          (λ pr s' h'. rebase_found-Keeps pr s' h')
    process_by-Keeps ValidationStatus.rebasing s n h =
        if-lem (λ (d : Done). Keeps d.1) _ _ _ (fail_item-Keeps _ s h) h
    process_by-Keeps ValidationStatus.waiting_ci s n h =
        asks-Keeps s (wait_verdict w item key) h wait_verdict-Keeps
    process_by-Keeps ValidationStatus.ci_running s n h =
        asks-Keeps s (poll_verdict w item key) h poll_verdict-Keeps
    process_by-Keeps ValidationStatus.ready s n h = mark_mergeable-Keeps s n h
    process_by-Keeps ValidationStatus.unset s n h = h
    process_by-Keeps ValidationStatus.validation_failed s n h = h
    process_by-Keeps (ValidationStatus.unknown t) s n h = h

-- One turn after the other.
process_all-Keeps :
    (ws : Bytes → SerialWorld) (cfg : Config) (j : Bytes) (m : Bucket (Option QueueItem))
    (st : SerialState)
    → any (readies j) m ≡ false
    → lookup j (process_all ws cfg m st).1.main.queue ≡ lookup j st.main.queue
unfolding process_all process_one
process_all-Keeps ws cfg j [] st n = refl
process_all-Keeps ws cfg j ((key, none) ∷ m) st n = process_all-Keeps ws cfg j m st n
process_all-Keeps ws cfg j ((key, some item) ∷ m) st n =
    let one : lookup j (process_one (ws key) cfg item key st).1.main.queue
        ≡ lookup j st.main.queue =
      process_by-Keeps (ws key) cfg j _ item key item.validation_status st (ground (arith, n))
        refl in
    let rest =
      process_all-Keeps ws cfg j m (process_one (ws key) cfg item key st).1 (ground (arith, n)) in
    elim (Bool-cases (process_one (ws key) cfg item key st).0) [
      | inl k ↦ rw (k, process_all) (rest ∙ one)
      | inr k ↦ rw (k, process_all) one
    ]

-- A tick changes the main queue at a key only if an entry that was ready before the tick belongs
-- under that key, whatever the platforms, git and the database answer. So an item that passes CI
-- enters the main queue in a later tick.
pub process-queue :
    (ws : Bytes → SerialWorld) (cfg : Config) (j : Bytes) (st : SerialState)
    → any (readies j) st.serial ≡ false
    → lookup j (process ws cfg st).1.main.queue ≡ lookup j st.main.queue
unfolding process
process-queue ws cfg j st n = process_all-Keeps ws cfg j st.serial st n

-- ===== src/Queue/Serial/Moves.antt =====
-- The state machine behind the validation of one item.
use asika.Prelude.{
  ◌≡◌, refl, inl, inr, ◌⊎◌, Bool, true, false, none, some, Bytes, text_eq_refl, Result, ok, fail,
  panic, Err, Option-cases,
}
use asika.Models.{Config, RepoGroup, PrRecord, PrBranchInfo, QueueItem, ValidationStatus}
use asika.Config.{get_repo_group_by_name, get_owner_repo_from_group}
use asika.Db.{lookup}
use asika.Db.Laws.{lookup-insert}
use asika.Queue.World.{result_of, Client}
use asika.Queue.Store.{find_pr_by_id}
use asika.Queue.Serial.{
  SerialWorld, SerialState, Done, handle, put_serial, update_item, with_status, fail_item, with_pr,
  get_ci_status, is_success, has_failed, is_running,
}

-- The branch was rebased and pushed.
pub record HasPushed (w : SerialWorld) (cfg : Config) (pr : PrRecord) : Type 1 where
  pub group : RepoGroup
  pub group-lem : get_repo_group_by_name cfg pr.repo_group ≡ some group
  pub client : Client
  pub client-lem : w.world.clients pr.platform ≡ some client
  pub owner : Bytes
  pub repo : Bytes
  pub repo-lem : get_owner_repo_from_group group pr.platform ≡ (owner, repo)
  pub info : PrBranchInfo
  pub info-lem : result_of (client.get_pr_branch_info owner repo pr.pr_number) ≡ ok info
  pub modify-lem : info.maintainer_can_modify ≡ true
  pub push-lem : w.rebase_and_push pr.platform owner repo info ≡ none

abbrev pub is_live : ValidationStatus → Bool
is_live ValidationStatus.validating = true
is_live ValidationStatus.rebasing = true
is_live ValidationStatus.waiting_ci = true
is_live ValidationStatus.ci_running = true
is_live _ = false

-- A property of both branches behind a call.
pub handle-lem {ℓ κ} :
    {A : Type ℓ} (P : SerialState → Type κ) (r : Result A) (s : SerialState) (next : A → Done)
    (failed : Err → Done)
    → P s
    → ((a : A) → r ≡ ok a → P (next a).1)
    → ((e : Err) → P (failed e).1)
    → P (handle r s next failed).1
unfolding handle
handle-lem P (ok a) s next failed hs hn hf = hn a refl
handle-lem P (fail e) s next failed hs hn hf = hf e
handle-lem P panic s next failed hs hn hf = hs

module _ (w : SerialWorld) (cfg : Config) (item : QueueItem) (st : SerialState) where
  -- The record of the item, as the database has it.
  abbrev pub IsRecord : PrRecord → Type 0
  IsRecord pr = (find_pr_by_id w.world item.pr_id item.repo_group st.main.store).0 ≡ ok pr

  -- The platform answers with a status.
  abbrev pub Reports : PrRecord → Bytes → Type 0
  Reports pr status = IsRecord pr × (get_ci_status w cfg pr ≡ ok status)

  -- A move of the validation state of the item, with what the move rests on.
  pub data Move (to : ValidationStatus) : Type 1 where
    stays : to ≡ item.validation_status → Move to
    fails :
        to ≡ ValidationStatus.validation_failed → is_live item.validation_status ≡ true → Move to
    waits :
        item.validation_status ≡ ValidationStatus.validating
        → to ≡ ValidationStatus.waiting_ci
        → (pr : PrRecord) → IsRecord pr
        → HasPushed w cfg pr
        → Move to
    runs :
        item.validation_status ≡ ValidationStatus.waiting_ci
        → to ≡ ValidationStatus.ci_running
        → (pr : PrRecord) (status : Bytes) → Reports pr status
        → is_running status ≡ true
        → Move to
    passes :
        item.validation_status ≡ ValidationStatus.waiting_ci
        → to ≡ ValidationStatus.ready
        → (pr : PrRecord) (status : Bytes) → Reports pr status
        → is_running status ≡ false
        → (is_success status ≡ true) ⊎ (has_failed status ≡ false)
        → Move to
    succeeds :
        item.validation_status ≡ ValidationStatus.ci_running
        → to ≡ ValidationStatus.ready
        → (pr : PrRecord) (status : Bytes) → Reports pr status
        → is_success status ≡ true
        → Move to

  -- The entry after the turn of the item.
  pub record HasMoved (key : Bytes) (after : SerialState) : Type 1 where
    pub to : QueueItem
    pub entry-lem : lookup key after.serial ≡ some (some to)
    pub id-lem : to.pr_id ≡ item.pr_id
    pub group-lem : to.repo_group ≡ item.repo_group
    pub move : Move to.validation_status

  module _ (key : Bytes) where
    pub HasStayed : (s : SerialState) → lookup key s.serial ≡ some (some item) → HasMoved key s
    HasStayed s h = record {
      to = item;
      entry-lem = h;
      id-lem = refl;
      group-lem = refl;
      move = stays refl;
    }

    pub put_serial-HasMoved :
        (to : QueueItem) (s : SerialState)
        → lookup key s.serial ≡ some (some item)
        → to.pr_id ≡ item.pr_id
        → to.repo_group ≡ item.repo_group
        → Move to.validation_status
        → HasMoved key (put_serial w key to s)
    unfolding put_serial
    put_serial-HasMoved to s h id group move = elim (Option-cases (w.serial_put_error key)) [
      | inr (e, k) ↦ rw (k, put_serial) (HasStayed s h)
      | inl k ↦
          rw (k, put_serial)
            (record {
              to = to;
              entry-lem = rw (lookup-insert key key (some to) s.serial, text_eq_refl key) refl;
              id-lem = id;
              group-lem = group;
              move = move;
            })
    ]

    pub fail_item-HasMoved :
        (reason : Bytes) (s : SerialState)
        → lookup key s.serial ≡ some (some item)
        → is_live item.validation_status ≡ true
        → HasMoved key (fail_item w item key reason s).1
    unfolding fail_item update_item with_status
    fail_item-HasMoved reason s h live = put_serial-HasMoved _ s h refl refl (fails refl live)

    pub update_item-HasMoved :
        (status : ValidationStatus) (detail : Bytes) (s : SerialState)
        → lookup key s.serial ≡ some (some item)
        → Move status
        → HasMoved key (update_item w (with_status status detail item) key s).1
    unfolding update_item with_status
    update_item-HasMoved status detail s h move = put_serial-HasMoved _ s h refl refl move

  module _ (key : Bytes) where
    pub with_pr-HasMoved :
        lookup key st.serial ≡ some (some item)
        → is_live item.validation_status ≡ true
        → (next : PrRecord → SerialState → Done)
        → ((pr : PrRecord) (s : SerialState)
            → IsRecord pr
            → lookup key s.serial ≡ some (some item)
            → HasMoved key (next pr s).1)
        → HasMoved key (with_pr w item key st next).1
    unfolding with_pr
    with_pr-HasMoved h live next hn =
        handle-lem (HasMoved key) (find_pr_by_id w.world item.pr_id item.repo_group st.main.store).0
          _ _ _ (HasStayed key _ h) (λ pr found. hn pr _ found h)
          (λ e. fail_item-HasMoved key _ _ h live)

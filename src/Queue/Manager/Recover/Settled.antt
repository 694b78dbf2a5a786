-- ===== src/Queue/Manager/Recover/Settled.antt =====
-- What `Recover` leaves in the queue.
use asika.Prelude.{
  ◌≡◌, refl, inl, inr, Bool, true, false, not, ◌&&◌, ◌||◌, Option, none, some, List, [], ◌∷◌, Bytes,
  text_eq, Bool-cases, Option-cases, if-lem, arith, if◌then◌else◌,
}
use asika.Models.{QueueItem}
use asika.Db.{Bucket, lookup}
use asika.Db.Laws.{lookup-insert, lookup-remove}
use asika.Queue.World.{World}
use asika.Queue.Store.{State, join_key, find_pr_by_id}
use asika.Queue.Manager.Filed.{IsFiled, insert-IsFiled, remove-IsFiled}
use asika.Queue.Manager.Recover.{
  in_flight, stale, is_merged, drop_merged, reset, recover_entry, recover_entries, recover,
}

found_in_flight : Option (Option QueueItem) → Bool
found_in_flight none = false
found_in_flight (some none) = false
found_in_flight (some (some item)) = in_flight item.status

-- The entry under the key is one that a process left in the middle of a check or a merge.
pub is_in_flight : Bytes → Bucket (Option QueueItem) → Bool
unfolding found_in_flight
is_in_flight j q = found_in_flight (lookup j q)

unfoldable pub is_listed : Bytes → List (Bytes × QueueItem) → Bool
is_listed j [] = false
is_listed j ((key, item) ∷ rest) = text_eq key j || is_listed j rest

stale-listed :
    (j : Bytes) (q : Bucket (Option QueueItem))
    → is_in_flight j q ≡ true
    → is_listed j (stale q) ≡ true
unfolding is_in_flight found_in_flight lookup stale is_listed
stale-listed j [] h = h
stale-listed j ((key, none) ∷ rest) h = ground (arith, h, stale-listed j rest)
stale-listed j ((key, some item) ∷ rest) h = ground (arith, h, stale-listed j rest)

flight-if :
    (b : Bool) (o : Option (Option QueueItem))
    → found_in_flight (if b then none else o) ≡ (not b && found_in_flight o)
unfolding found_in_flight
flight-if true o = refl
flight-if false o = refl

flight-if_fresh :
    (b : Bool) (item : QueueItem) (o : Option (Option QueueItem))
    → in_flight item.status ≡ false
    → found_in_flight (if b then some (some item) else o) ≡ (not b && found_in_flight o)
unfolding found_in_flight
flight-if_fresh true item o h = h
flight-if_fresh false item o h = refl

module _ (w : World) (puts : (k : Bytes) → w.put_error k ≡ none)
    (deletes : (k : Bytes) → w.delete_error k ≡ none) where
  drop_merged-flight :
      (key j : Bytes) (st : State)
      → is_in_flight j (drop_merged w key st).queue
        ≡ (not (text_eq key j) && is_in_flight j st.queue)
  unfolding drop_merged is_in_flight found_in_flight
  drop_merged-flight key j st =
      rw (deletes key, drop_merged)
        (rw (lookup-remove key j st.queue, is_in_flight)
          (flight-if (text_eq key j) (lookup j st.queue)))

  reset-flight :
      (key j : Bytes) (item : QueueItem) (st : State)
      → is_in_flight j (reset w key item st).queue
        ≡ (not (text_eq key j) && is_in_flight j st.queue)
  unfolding reset is_in_flight found_in_flight
  reset-flight key j item st =
      rw (puts key, reset)
        (rw (lookup-insert key j _ st.queue, is_in_flight)
          (flight-if_fresh (text_eq key j) _ (lookup j st.queue) refl))

  recover_entry-flight :
      (key j : Bytes) (item : QueueItem) (st : State)
      → is_in_flight j (recover_entry w key item st).queue
        ≡ (not (text_eq key j) && is_in_flight j st.queue)
  unfolding recover_entry
  recover_entry-flight key j item st =
      elim (Bool-cases (is_merged (find_pr_by_id w item.pr_id item.repo_group st.store).0)) [
        | inl h ↦ rw h (drop_merged-flight key j _)
        | inr h ↦ rw h (reset-flight key j item _)
      ]

  recover_entries-flight :
      (j : Bytes) (entries : List (Bytes × QueueItem)) (st : State)
      → is_in_flight j (recover_entries w entries st).queue
        ≡ (not (is_listed j entries) && is_in_flight j st.queue)
  unfolding recover_entries is_listed
  recover_entries-flight j [] st = refl
  recover_entries-flight j ((key, item) ∷ rest) st =
      rw
        (
          recover_entries-flight j rest (recover_entry w key item st),
          recover_entry-flight key j item st,
        )
        (ground arith)

  -- After `Recover`, with no write or deletion that fails, no entry of the queue is "checking" or
  -- "merging".
  pub recover-is_in_flight : (j : Bytes) (st : State) → is_in_flight j (recover w st).queue ≡ false
  unfolding recover
  recover-is_in_flight j st =
      rw (recover_entries-flight j (stale st.queue) st) (ground (arith, stale-listed j st.queue))

recover_entry-frame :
    (w : World) (key j : Bytes) (item : QueueItem) (st : State)
    → text_eq key j ≡ false
    → lookup j (recover_entry w key item st).queue ≡ lookup j st.queue
unfolding recover_entry drop_merged reset
recover_entry-frame w key j item st h = grind (arith, h, lookup-insert, lookup-remove)

recover_entries-frame :
    (w : World) (j : Bytes) (entries : List (Bytes × QueueItem)) (st : State)
    → is_listed j entries ≡ false
    → lookup j (recover_entries w entries st).queue ≡ lookup j st.queue
unfolding recover_entries is_listed
recover_entries-frame w j [] st h = refl
recover_entries-frame w j ((key, item) ∷ rest) st h = grind (
  arith,
  h,
  recover_entry-frame w key j item st,
  recover_entries-frame w j rest (recover_entry w key item st),
)

-- `Recover` leaves an entry as it is, if no item under its key was "checking" or "merging".
pub recover-frame :
    (w : World) (j : Bytes) (st : State)
    → is_listed j (stale st.queue) ≡ false
    → lookup j (recover w st).queue ≡ lookup j st.queue
unfolding recover
recover-frame w j st h = recover_entries-frame w j (stale st.queue) st h

-- The entries to reset are stored under their own keys.
abbrev AreFiled : List (Bytes × QueueItem) → Type 0
AreFiled [] = Unit
AreFiled ((key, item) ∷ rest) = (key ≡ join_key item.repo_group item.pr_id) × AreFiled rest

stale-AreFiled : (q : Bucket (Option QueueItem)) → IsFiled q → AreFiled (stale q)
unfolding stale
stale-AreFiled [] filed = tt
stale-AreFiled ((key, none) ∷ rest) (_, filed) = stale-AreFiled rest filed
stale-AreFiled ((key, some item) ∷ rest) (own, filed) = elim (Bool-cases (in_flight item.status)) [
  | inl h ↦ rw h (own, stale-AreFiled rest filed)
  | inr h ↦ rw h (stale-AreFiled rest filed)
]

drop_merged-IsFiled :
    (w : World) (key : Bytes) (st : State) → IsFiled st.queue → IsFiled (drop_merged w key st).queue
unfolding drop_merged
drop_merged-IsFiled w key st filed = elim (Option-cases (w.delete_error key)) [
  | inl d ↦ rw (d, drop_merged) (remove-IsFiled key st.queue filed)
  | inr (e, d) ↦ rw (d, drop_merged) filed
]

reset-IsFiled :
    (w : World) (key : Bytes) (item : QueueItem) (st : State)
    → key ≡ join_key item.repo_group item.pr_id
    → IsFiled st.queue
    → IsFiled (reset w key item st).queue
unfolding reset
reset-IsFiled w key item st own filed = elim (Option-cases (w.put_error key)) [
  | inl d ↦ rw (d, reset) (insert-IsFiled key _ st.queue own filed)
  | inr (e, d) ↦ rw (d, reset) filed
]

recover_entry-IsFiled :
    (w : World) (key : Bytes) (item : QueueItem) (st : State)
    → key ≡ join_key item.repo_group item.pr_id
    → IsFiled st.queue
    → IsFiled (recover_entry w key item st).queue
unfolding recover_entry
recover_entry-IsFiled w key item st own filed =
    let (found, store) = find_pr_by_id w item.pr_id item.repo_group st.store in
    let st' = record st { store = store } in
    if-lem (λ r. IsFiled r.queue) (is_merged found) (drop_merged w key st') (reset w key item st')
      (drop_merged-IsFiled w key st' filed) (reset-IsFiled w key item st' own filed)

recover_entries-IsFiled :
    (w : World) (entries : List (Bytes × QueueItem)) (st : State)
    → AreFiled entries
    → IsFiled st.queue
    → IsFiled (recover_entries w entries st).queue
unfolding recover_entries
recover_entries-IsFiled w [] st _ filed = filed
recover_entries-IsFiled w ((key, item) ∷ rest) st (own, owns) filed =
    recover_entries-IsFiled w rest (recover_entry w key item st) owns
      (recover_entry-IsFiled w key item st own filed)

pub recover-IsFiled : (w : World) (st : State) → IsFiled st.queue → IsFiled (recover w st).queue
unfolding recover
recover-IsFiled w st filed =
    recover_entries-IsFiled w (stale st.queue) st (stale-AreFiled st.queue filed) filed

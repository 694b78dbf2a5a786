-- ===== src/Queue/Manager/Filed.antt =====
-- Every item of the queue is stored under the key of its own pull request.
use asika.Prelude.{◌≡◌, inl, inr, Option, none, some, [], ◌∷◌, Bytes, lex_lt, text_eq, Bool-cases}
use asika.Models.{QueueItem}
use asika.Db.{Bucket, insert, remove}
use asika.Queue.Store.{join_key}

abbrev pub IsOwnKey : Bytes → Option QueueItem → Type 0
IsOwnKey key none = Unit
IsOwnKey key (some item) = key ≡ join_key item.repo_group item.pr_id

abbrev pub IsFiled : Bucket (Option QueueItem) → Type 0
IsFiled [] = Unit
IsFiled ((key, item) ∷ rest) = IsOwnKey key item × IsFiled rest

pub insert-IsFiled :
    (key : Bytes) (v : Option QueueItem) (q : Bucket (Option QueueItem))
    → IsOwnKey key v
    → IsFiled q
    → IsFiled (insert key v q)
unfolding insert
insert-IsFiled key v [] own _ = (own, tt)
insert-IsFiled key v ((j, u) ∷ q) own filed = elim (Bool-cases (text_eq j key)) [
  | inl h ↦ rw h (own, filed.1)
  | inr h ↦ elim (Bool-cases (lex_lt key j)) [
    | inl l ↦ rw (h, l) (own, filed)
    | inr l ↦ rw (h, l) (filed.0, insert-IsFiled key v q own filed.1)
  ]
]

pub remove-IsFiled :
    (key : Bytes) (q : Bucket (Option QueueItem)) → IsFiled q → IsFiled (remove key q)
unfolding remove
remove-IsFiled key [] _ = tt
remove-IsFiled key ((j, u) ∷ q) filed = elim (Bool-cases (text_eq j key)) [
  | inl h ↦ rw h (remove-IsFiled key q filed.1)
  | inr h ↦ rw h (filed.0, remove-IsFiled key q filed.1)
]

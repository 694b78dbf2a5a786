-- ===== src/Db/SyncLock.antt =====
-- `AcquireSyncLock` and `ReleaseSyncLock` of common/db/bbolt_core.go. Each is one transaction. A
-- stored lock that does not decode is `none`; the bucket exists, and its writes do not fail.
use asika.Prelude.{
  ◌+◌, ◌≡◌, Bool, true, false, not, ◌&&◌, Option, some, List, [], ◌∷◌, ◌++◌, Bytes, lit, All,
  text_eq, text_eq_iff, ltb, if◌then◌else◌, arith, Bool-cases, inl, inr,
}
use asika.Models.{Time}
use asika.Db.{Bucket, lookup, insert, remove}
use asika.Db.Laws.{lookup-insert, lookup-remove}

pub record SyncLock : Type 0 where
  pub holder : Bytes
  pub locked_at : Time
  pub expires_at : Time

unfoldable pub lock_key : Bytes → Bytes
lock_key group = lit "lock:" ++ group

-- Another holder has the lock, and it has not expired.
is_held : Time → Bytes → Option (Option SyncLock) → Bool
is_held now holder (some (some lock)) = not (text_eq lock.holder holder) && ltb now lock.expires_at
is_held now holder _ = false

pub acquire_sync_lock :
    Time → Bytes → Bytes → Time → Bucket (Option SyncLock) → Bool × Bucket (Option SyncLock)
acquire_sync_lock now group holder ttl locks =
    let entry : SyncLock = record { holder = holder; locked_at = now; expires_at = now + ttl } in
    if is_held now holder (lookup (lock_key group) locks)
    then (false, locks)
    else (true, insert (lock_key group) (some entry) locks)

is_own : Bytes → Option (Option SyncLock) → Bool
is_own holder (some (some lock)) = text_eq lock.holder holder
is_own holder _ = false

pub release_sync_lock : Bytes → Bytes → Bucket (Option SyncLock) → Bucket (Option SyncLock)
release_sync_lock group holder locks =
    if is_own holder (lookup (lock_key group) locks) then remove (lock_key group) locks else locks

-- What the syncers do with locks, in the order of the transactions.
pub data LockStep : Type 0 where
  acquire : Time → Bytes → Bytes → Time → LockStep
  release : Bytes → Bytes → LockStep

pub lock_step : LockStep → Bucket (Option SyncLock) → Bucket (Option SyncLock)
lock_step (acquire now group holder ttl) locks = (acquire_sync_lock now group holder ttl locks).1
lock_step (release group holder) locks = release_sync_lock group holder locks

pub lock_steps : List LockStep → Bucket (Option SyncLock) → Bucket (Option SyncLock)
lock_steps [] locks = locks
lock_steps (s ∷ ss) locks = lock_steps ss (lock_step s locks)

-- A step of another holder, before the lock expires.
abbrev pub IsForeign : SyncLock → LockStep → Type 0
IsForeign lock (acquire now group holder ttl) =
    (text_eq lock.holder holder ≡ false) × (ltb now lock.expires_at ≡ true)
IsForeign lock (release group holder) = text_eq lock.holder holder ≡ false

lock_step_keeps :
    (lock : SyncLock) (group : Bytes) (s : LockStep) (locks : Bucket (Option SyncLock))
    → IsForeign lock s
    → lookup (lock_key group) locks ≡ some (some lock)
    → lookup (lock_key group) (lock_step s locks) ≡ some (some lock)
unfolding lock_step acquire_sync_lock is_held release_sync_lock is_own
lock_step_keeps lock group (acquire now other holder ttl) locks (foreign, early) h =
    elim (Bool-cases (text_eq (lock_key other) (lock_key group))) [
      | inl same ↦
          ground (arith, h, foreign, early, same, text_eq_iff (lock_key other) (lock_key group))
      | inr apart ↦ ground (
        arith,
        h,
        apart,
        lookup-insert (lock_key other) (lock_key group)
            (some (record { holder = holder; locked_at = now; expires_at = now + ttl })) locks,
      )
    ]
lock_step_keeps lock group (release other holder) locks foreign h =
    elim (Bool-cases (text_eq (lock_key other) (lock_key group))) [
      | inl same ↦ ground (arith, h, foreign, same, text_eq_iff (lock_key other) (lock_key group))
      | inr apart ↦ ground (arith, h, apart, lookup-remove (lock_key other) (lock_key group) locks)
    ]

-- A sync lock that a holder has stays as it is under any sequence of acquisitions and releases, of
-- any groups, by other holders, as long as the acquisitions come before the lock expires.
pub lock_steps_keeps :
    (lock : SyncLock) (group : Bytes) (ss : List LockStep) (locks : Bucket (Option SyncLock))
    → All (IsForeign lock) ss
    → lookup (lock_key group) locks ≡ some (some lock)
    → lookup (lock_key group) (lock_steps ss locks) ≡ some (some lock)
unfolding lock_steps
lock_steps_keeps lock group [] locks _ h = h
lock_steps_keeps lock group (s ∷ ss) locks (foreign, others) h =
    lock_steps_keeps lock group ss (lock_step s locks) others
      (lock_step_keeps lock group s locks foreign h)

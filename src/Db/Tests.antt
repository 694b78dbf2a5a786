-- ===== src/Db/Tests.antt =====
-- Runs of the sync lock.
use asika.Prelude.{◌≡◌, refl, Option, some, List, [], ◌∷◌, lit, text_eq, All}
use asika.Db.{Bucket, lookup}
use asika.Db.SyncLock.{
  SyncLock, lock_key, LockStep, acquire, release, lock_steps, IsForeign, lock_steps_keeps,
}

abbrev held : SyncLock
held = record { holder = lit "a"; locked_at = 10; expires_at = 60 }

abbrev locks : Bucket (Option SyncLock)
locks = (lit "lock:g", some held) ∷ []

abbrev tries : List LockStep
tries = acquire 20 (lit "g") (lit "b") 50 ∷ release (lit "g") (lit "b") ∷ []

is_there : lookup (lock_key (lit "g")) locks ≡ some (some held)
unfolding lookup lock_key lit text_eq
is_there = refl

All-IsForeign : All (IsForeign held) tries
unfolding lit text_eq
All-IsForeign = ((refl, refl), (refl, tt))

lock_steps_keeps_example : lookup (lock_key (lit "g")) (lock_steps tries locks) ≡ some (some held)
lock_steps_keeps_example = lock_steps_keeps held (lit "g") tries locks All-IsForeign is_there

-- ===== src/Cache/Refines.antt =====
-- The cache against a map that forgets nothing.
use asika.Prelude.{
  ℕ, ◌+◌, ◌≡◌, refl, sym, ◌∙◌, inl, inr, true, Option, none, some, List, [], ◌∷◌, Bytes, text_eq,
  text_eq_iff, if◌then◌else◌, arith, Bool-cases, Option-cases,
}
use asika.Models.{Time}
use asika.Db.{lookup, insert, remove}
use asika.Db.Laws.{lookup-insert, lookup-remove}
use asika.Cache.{CacheEntry, Entries, is_expired, get, set, delete, cleanup}

-- One call, after a time has passed.
pub data Operation : Type 0 where
  get_at : ℕ → Bytes → Operation
  set_at : ℕ → Bytes → Bytes → ℕ → Operation
  delete_at : ℕ → Bytes → Operation
  cleanup_at : ℕ → Operation

-- The answers of the calls of `Get`.
unfoldable pub run : Time → List Operation → Entries → List (Option Bytes)
run now [] c = []
run now (get_at d k ∷ os) c = let (answer, c') = get (now + d) k c in answer ∷ run (now + d) os c'
run now (set_at d k v ttl ∷ os) c = run (now + d) os (set (now + d) k v ttl c)
run now (delete_at d k ∷ os) c = run (now + d) os (delete k c)
run now (cleanup_at d ∷ os) c = run (now + d) os (cleanup (now + d) c)

-- What was last set at a key and not deleted since, with the time at which it ends.
abbrev pub Memory : Type 0
Memory = Bytes → Option CacheEntry

pub read : Time → Option CacheEntry → Option Bytes
read now none = none
read now (some e) = if is_expired now e then none else some e.value

pub store : Bytes → Option CacheEntry → Memory → Memory
store k v m j = if text_eq k j then v else m j

-- The abstract cache: nothing leaves it but by `Delete`, and a value is read until it expires.
pub replay : Time → List Operation → Memory → List (Option Bytes)
replay now [] m = []
replay now (get_at d k ∷ os) m = read (now + d) (m k) ∷ replay (now + d) os m
replay now (set_at d k v ttl ∷ os) m =
    replay (now + d) os (store k (some (record { value = v; expires_at = (now + d) + ttl })) m)
replay now (delete_at d k ∷ os) m = replay (now + d) os (store k none m)
replay now (cleanup_at d ∷ os) m = replay (now + d) os m

-- What has expired may be forgotten: at this time and later all keys read the same.
Agrees : Time → Entries → Memory → Type 0
Agrees now c m =
    (k : Bytes) (later : ℕ) → read (now + later) (lookup k c) ≡ read (now + later) (m k)

read-expired :
    (now later : ℕ) (e : CacheEntry) → is_expired now e ≡ true → read (now + later) (some e) ≡ none
unfolding read is_expired
read-expired now later e h = ground (arith, h)

keep : Time → Option CacheEntry → Option CacheEntry
keep now none = none
keep now (some e) = if is_expired now e then none else some e

lookup-cleanup :
    (now : Time) (k : Bytes) (c : Entries) → lookup k (cleanup now c) ≡ keep now (lookup k c)
unfolding cleanup lookup keep
lookup-cleanup now k [] = refl
lookup-cleanup now k ((j, e) ∷ c) = elim (Bool-cases (is_expired now e)) [
  | inl x ↦
      rw (x, cleanup) (ground (arith, x, lookup-cleanup now k c, lookup-remove j k (cleanup now c)))
  | inr x ↦ rw (x, cleanup) (ground (arith, x, lookup-cleanup now k c))
]

read-keep :
    (now later : ℕ) (o : Option CacheEntry) → read (now + later) (keep now o) ≡ read (now + later) o
unfolding read keep is_expired
read-keep now later none = refl
read-keep now later (some e) = ground arith

later-Agrees : (now d : ℕ) (c : Entries) (m : Memory) → Agrees now c m → Agrees (now + d) c m
unfolding Agrees
later-Agrees now d c m h k later =
    let e : now + d + later ≡ now + (d + later) = omega arith in rw e (h k (d + later))

cleanup-Agrees :
    (now : Time) (c : Entries) (m : Memory) → Agrees now c m → Agrees now (cleanup now c) m
unfolding Agrees
cleanup-Agrees now c m h k later =
    rw (lookup-cleanup now k c) (read-keep now later (lookup k c) ∙ h k later)

insert-Agrees :
    (now : Time) (k : Bytes) (e : CacheEntry) (c : Entries) (m : Memory)
    → Agrees now c m
    → Agrees now (insert k e c) (store k (some e) m)
unfolding Agrees store
insert-Agrees now k e c m h j later = rw (lookup-insert k j e c) (ground (arith, h j later))

remove-Agrees :
    (now : Time) (k : Bytes) (c : Entries) (m : Memory)
    → Agrees now c m
    → Agrees now (remove k c) (store k none m)
unfolding Agrees store
remove-Agrees now k c m h j later = rw (lookup-remove k j c) (ground (arith, h j later))

-- An expired entry may go.
evict-Agrees :
    (now : Time) (k : Bytes) (e : CacheEntry) (c : Entries) (m : Memory)
    → lookup k c ≡ some e
    → is_expired now e ≡ true
    → Agrees now c m
    → Agrees now (remove k c) m
unfolding Agrees read
evict-Agrees now k e c m found x h j later = elim (Bool-cases (text_eq k j)) [
  | inr n ↦ rw (lookup-remove k j c, n) (h j later)
  | inl y ↦
      let same : k ≡ j = (text_eq_iff k j).0 y in
      let gone : read (now + later) (lookup j c) ≡ none =
        rw (sym same, found) (read-expired now later e x) in
      rw (lookup-remove k j c, y) (sym gone ∙ h j later)
]

read_now :
    (now : Time) (k : Bytes) (c : Entries) (m : Memory)
    → Agrees now c m
    → read now (lookup k c) ≡ read now (m k)
unfolding Agrees
read_now now k c m h = let e : now + 0 ≡ now = omega arith in rw e at (h k 0)

get-read : (now : Time) (k : Bytes) (c : Entries) → (get now k c).0 ≡ read now (lookup k c)
unfolding get read
get-read now k c = elim (Option-cases (lookup k c)) [
  | inl n ↦ rw (n, get, read) refl
  | inr (e, n) ↦
      rw (n, get, read)
        (elim (Bool-cases (is_expired now e)) [
          | inl x ↦ rw (x, get, read) refl
          | inr x ↦ rw (x, get, read) refl
        ])
]

get-Agrees :
    (now : Time) (k : Bytes) (c : Entries) (m : Memory)
    → Agrees now c m
    → Agrees now (get now k c).1 m
unfolding get
get-Agrees now k c m h = elim (Option-cases (lookup k c)) [
  | inl n ↦ rw (n, get) h
  | inr (e, n) ↦ elim (Bool-cases (is_expired now e)) [
    | inl x ↦ rw (n, get) (rw (x, get) (evict-Agrees now k e c m n x h))
    | inr x ↦ rw (n, get) (rw (x, get) h)
  ]
]

run-Agrees :
    (os : List Operation) (now : Time) (c : Entries) (m : Memory)
    → Agrees now c m
    → run now os c ≡ replay now os m
unfolding run replay set delete
run-Agrees [] now c m h = refl
run-Agrees (get_at d k ∷ os) now c m h =
    let h' = later-Agrees now d c m h in
    let rest = run-Agrees os (now + d) (get (now + d) k c).1 m (get-Agrees (now + d) k c m h') in
    rw (get-read (now + d) k c, read_now (now + d) k c m h', rest) refl
run-Agrees (set_at d k v ttl ∷ os) now c m h =
    run-Agrees os (now + d) _ _ (insert-Agrees (now + d) k _ c m (later-Agrees now d c m h))
run-Agrees (delete_at d k ∷ os) now c m h =
    run-Agrees os (now + d) _ _ (remove-Agrees (now + d) k c m (later-Agrees now d c m h))
run-Agrees (cleanup_at d ∷ os) now c m h =
    run-Agrees os (now + d) _ m (cleanup-Agrees (now + d) c m (later-Agrees now d c m h))

-- From an empty cache any sequence of `Get`, `Set`, `Delete` and `Cleanup`, on a clock that does
-- not run backwards, answers every `Get` as the map does that forgets nothing: with the value that
-- was last set at the key and not deleted since, until its time to live is over. Evictions and the
-- cleanup cannot be seen.
pub run_refines : (os : List Operation) (now : Time) → run now os [] ≡ replay now os (λ k. none)
unfolding Agrees lookup
run_refines os now = run-Agrees os now [] (λ k. none) (λ k later. refl)

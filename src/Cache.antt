-- ===== src/Cache.antt =====
-- common/cache/cache.go: values that expire. A time to live is not negative. SHA-256 with its
-- hexadecimal text is a parameter.
pub mod Refines
pub mod Tests
use asika.Prelude.{
  ℕ, ◌+◌, Bool, true, false, Option, none, some, List, [], ◌∷◌, ◌++◌, Bytes, lit, ltb,
  if◌then◌else◌,
}
use asika.Models.{Time}
use asika.Db.{lookup, insert, remove}
use asika.Queue.Expr.Values.{show_nat}

pub record CacheEntry : Type 0 where
  pub value : Bytes
  pub expires_at : Time

abbrev pub Entries : Type 0
Entries = List (Bytes × CacheEntry)

-- `time.Now().After(entry.expiresAt)`
pub is_expired : Time → CacheEntry → Bool
is_expired now e = ltb e.expires_at now

-- `none` is a miss. An expired entry is deleted.
pub get : Time → Bytes → Entries → Option Bytes × Entries
unfolding is_expired
get now key c = elim (lookup key c) [
  | none ↦ (none, c)
  | some e ↦ if is_expired now e then (none, remove key c) else (some e.value, c)
]

pub set : Time → Bytes → Bytes → ℕ → Entries → Entries
set now key value ttl c = insert key (record { value = value; expires_at = now + ttl }) c

pub delete : Bytes → Entries → Entries
delete key c = remove key c

pub cleanup : Time → Entries → Entries
unfolding is_expired
cleanup now [] = []
cleanup now ((k, e) ∷ c) =
    let rest = cleanup now c in if is_expired now e then remove k rest else (k, e) ∷ rest

-- What is hashed.
pub joined : List Bytes → Bytes
joined [] = []
joined (p ∷ parts) = p ++ (lit "|" ++ joined parts)

-- `ApprovalCache` and `CIStatusCache`: a cache with the time to live of all its entries.
module _ (sha256_hex : Bytes → Bytes) where
  pub key : List Bytes → Bytes
  unfolding joined
  key parts = sha256_hex (joined parts)

  pub approval_key : Bytes → Bytes → ℕ → Bytes
  unfolding key
  approval_key owner repo number = key (lit "approval" ∷ owner ∷ repo ∷ show_nat number ∷ [])

  pub ci_key : Bytes → Bytes → Bytes → Bytes
  unfolding key
  ci_key owner repo sha = key (lit "ci" ∷ owner ∷ repo ∷ sha ∷ [])

  pub get_approval : Time → Bytes → Bytes → ℕ → Entries → Option Bytes × Entries
  unfolding approval_key get
  get_approval now owner repo number c = get now (approval_key owner repo number) c

  pub set_approval : ℕ → Time → Bytes → Bytes → ℕ → Bytes → Entries → Entries
  unfolding approval_key set
  set_approval ttl now owner repo number value c =
      set now (approval_key owner repo number) value ttl c

  pub get_ci_status : Time → Bytes → Bytes → Bytes → Entries → Option Bytes × Entries
  unfolding ci_key get
  get_ci_status now owner repo sha c = get now (ci_key owner repo sha) c

  pub set_ci_status : ℕ → Time → Bytes → Bytes → Bytes → Bytes → Entries → Entries
  unfolding ci_key set
  set_ci_status ttl now owner repo sha value c = set now (ci_key owner repo sha) value ttl c

-- ===== src/Db.antt =====
-- common/db/bbolt_core.go: a bucket of the embedded database, as an association list. bbolt keeps
-- its keys in byte order, and so does `insert`. A map of the program that is only looked up by key
-- is such a list too.
pub mod Laws
pub mod SyncLock
pub mod Tests
use asika.Prelude.{
  ℕ, Bool, true, false, Option, none, some, List, [], ◌∷◌, Bytes, text_eq, lex_lt, has_prefix, map,
  if◌then◌else◌,
}

abbrev pub Bucket {ℓ} : Type ℓ → Type ℓ
Bucket V = List (Bytes × V)

module _ {ℓ} {V : Type ℓ} where
  -- `Get`; `none` is `ErrNotFound`.
  unfoldable pub lookup : Bytes → List (Bytes × V) → Option V
  lookup k [] = none
  lookup k ((j, v) ∷ m) = if text_eq j k then some v else lookup k m

  -- `Put`
  unfoldable pub insert : Bytes → V → List (Bytes × V) → List (Bytes × V)
  insert k v [] = (k, v) ∷ []
  insert k v ((j, w) ∷ m) =
      if text_eq j k
      then (k, v) ∷ m
      else if lex_lt k j
      then (k, v) ∷ (j, w) ∷ m
      else (j, w) ∷ insert k v m

  -- `Delete`
  unfoldable pub remove : Bytes → List (Bytes × V) → List (Bytes × V)
  remove k [] = []
  remove k ((j, v) ∷ m) = let rest = remove k m in if text_eq j k then rest else (j, v) ∷ rest

  pub remove_all : List Bytes → List (Bytes × V) → List (Bytes × V)
  unfolding remove
  remove_all [] m = m
  remove_all (k ∷ ks) m = remove_all ks (remove k m)

  -- `BucketForEachPrefix`: the entries whose key begins with the prefix, in order.
  unfoldable pub with_prefix : Bytes → List (Bytes × V) → List (Bytes × V)
  with_prefix p [] = []
  with_prefix p ((k, v) ∷ m) =
      let rest = with_prefix p m in if has_prefix k p then (k, v) ∷ rest else rest

  abbrev pub keys : List (Bytes × V) → List Bytes
  keys [] = []
  keys ((k, v) ∷ m) = k ∷ keys m

-- ===== src/Db/Laws.antt =====
-- The laws of a bucket, in the form of a test on the two keys.
use asika.Prelude.{
  ◌≡◌, refl, none, some, List, [], ◌∷◌, Bytes, text_eq, text_eq_iff, any, arith, if◌then◌else◌,
}
use asika.Db.{lookup, insert, remove, remove_all}

module _ {ℓ} {V : Type ℓ} where
  pub lookup-insert :
      (k j : Bytes) (v : V) (m : List (Bytes × V))
      → lookup j (insert k v m) ≡ (if text_eq k j then some v else lookup j m)
  unfolding lookup insert
  lookup-insert k j v [] = refl
  lookup-insert k j v ((i, w) ∷ m) =
      ground (arith, text_eq_iff k j, text_eq_iff i k, text_eq_iff i j, lookup-insert k j v m)

  pub lookup-remove :
      (k j : Bytes) (m : List (Bytes × V))
      → lookup j (remove k m) ≡ (if text_eq k j then none else lookup j m)
  unfolding lookup remove
  lookup-remove k j [] = ground arith
  lookup-remove k j ((i, w) ∷ m) =
      ground (arith, text_eq_iff k j, text_eq_iff i k, text_eq_iff i j, lookup-remove k j m)

  pub lookup-remove_all :
      (ks : List Bytes) (j : Bytes) (m : List (Bytes × V))
      → lookup j (remove_all ks m) ≡ (if any (λ k. text_eq k j) ks then none else lookup j m)
  unfolding remove_all
  lookup-remove_all [] j m = refl
  lookup-remove_all (k ∷ ks) j m =
      rw (lookup-remove_all ks j (remove k m), lookup-remove k j m) (ground arith)

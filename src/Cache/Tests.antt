-- ===== src/Cache/Tests.antt =====
-- Runs of the cache.
use asika.Prelude.{◌≡◌, refl, none, some, List, [], ◌∷◌, lit, text_eq}
use asika.Db.{lookup, insert, remove}
use asika.Cache.{is_expired, get, set, cleanup}
use asika.Cache.Refines.{Operation, get_at, set_at, cleanup_at, run, replay, run_refines}

abbrev calls : List Operation
calls = set_at 0 (lit "a") (lit "1") 5 ∷ get_at 5 (lit "a") ∷ cleanup_at 1 ∷ get_at 0 (lit "a") ∷ []

-- A value is there until its time to live is over, and not after it.
expiry : run 0 calls [] ≡ some (lit "1") ∷ none ∷ []
unfolding run get set cleanup is_expired lookup insert remove lit text_eq
expiry = refl

run_refines_example : run 0 calls [] ≡ replay 0 calls (λ k. none)
run_refines_example = run_refines calls 0

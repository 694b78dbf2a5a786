-- ===== src/Queue/Check.antt =====
-- The state of one run of the checker, and the actions over it. The checker mutates the record of
-- the pull request that it holds in memory, the queue item (`I` is `Unit` where there is none) and
-- the labels on the platform.
use asika.Prelude.{
  ◌≡◌, refl, Bool, true, false, List, [], ◌∷◌, Bytes, Result, ok, fail, panic, Err, ◌++◌,
  wrap_transient, if◌then◌else◌,
}
pub mod Keeps
pub mod Record
pub mod Invert
use asika.Models.{PrRecord}

pub record CheckState (I : Type 0) : Type 0 where
  pub pr : PrRecord
  pub item : I
  -- The labels that were added, oldest first.
  pub labeled : List Bytes

abbrev pub Check : Type 0 → Type 0 → Type 0
Check I A = CheckState I → Result A × CheckState I

module _ {I : Type 0} where
  module _ {A : Type 0} where
    abbrev pub pure : A → Check I A
    pure a s = (ok a, s)

    abbrev pub throw : Err → Check I A
    throw e s = (fail e, s)

    abbrev pub lift : Result A → Check I A
    lift r s = (r, s)

    -- `if err != nil { return false, &TransientError{Err: err} }`
    abbrev pub transiently : Check I A → Check I A
    transiently m s = let (r, s') = m s in (wrap_transient r, s')

    abbrev pub with_pr : (PrRecord → Check I A) → Check I A
    with_pr f s = f s.pr s

  abbrev pub get_pr : Check I PrRecord
  get_pr s = (ok s.pr, s)

  abbrev pub get_item : Check I I
  get_item s = (ok s.item, s)

  abbrev pub set_pr : PrRecord → Check I Unit
  set_pr pr s = (ok tt, record s { pr = pr })

  abbrev pub set_item : (I → I) → Check I Unit
  set_item f s = (ok tt, record s { item = f s.item })

  -- `client.AddLabel`: a failure is only logged.
  abbrev pub add_label : Bytes → Check I Unit
  add_label label s = (ok tt, record s { labeled = s.labeled ++ label ∷ [] })

module _ {I A B : Type 0} where
  abbrev pub and_then : Result A → (A → Check I B) → Check I B
  and_then (ok a) f s = f a s
  and_then (fail e) f s = (fail e, s)
  and_then panic f s = (panic, s)

  infixl 5 ◌>>=◌
  abbrev pub ◌>>=◌ : Check I A → (A → Check I B) → Check I B
  ◌>>=◌ m f s = let (r, s') = m s in and_then r f s'

module _ {I B : Type 0} where
  infixl 5 ◌>>◌
  abbrev pub ◌>>◌ : Check I Unit → Check I B → Check I B
  m >> n = m >>= λ _. n

module _ {I : Type 0} where
  -- `passed, err := m; if err != nil { return false, err }; if !passed { reject }; rest`
  abbrev pub require : Check I Bool → Check I Bool → Check I Bool → Check I Bool
  require m reject rest = m >>= λ passed. if passed then rest else reject

  -- The same under a setting of the group.
  abbrev pub require_if : Bool → Check I Bool → Check I Bool → Check I Bool → Check I Bool
  require_if enabled m reject rest = if enabled then require m reject rest else rest

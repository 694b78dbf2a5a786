-- ===== src/Queue/Check/Invert.antt =====
-- What a successful action of the checker went through.
use asika.Prelude.{
  ◌≡◌, refl, ◌⊎◌, inl, inr, Bool, true, false, Result, ok, fail, panic, Bool-cases, if◌then◌else◌,
}
use asika.Queue.Check.{Check, CheckState, and_then, require, require_if, ◌>>=◌}

module _ {I : Type 0} where
  module _ {A B : Type 0} where
    and_then-eq-ok :
        (r : Result A) (f : A → Check I B) (s : CheckState I) {b : B}
        → (and_then r f s).0 ≡ ok b
        → (a : A) × (r ≡ ok a) × ((f a s).0 ≡ ok b)
    and_then-eq-ok (ok a) f s h = (a, refl, h)
    and_then-eq-ok (fail e) f s h = cc
    and_then-eq-ok panic f s h = cc

    pub >>=-eq-ok :
        (m : Check I A) (f : A → Check I B) (s : CheckState I) {b : B}
        → ((m >>= f) s).0 ≡ ok b
        → (a : A) × ((m s).0 ≡ ok a) × ((f a (m s).1).0 ≡ ok b)
    >>=-eq-ok m f s h = and_then-eq-ok (m s).0 f (m s).1 h

  -- An action that never answers yes.
  abbrev pub Refuses : Check I Bool → Type 0
  Refuses m = (s : CheckState I) → ¬ ((m s).0 ≡ ok true)

  pub require-eq-ok :
      (m reject rest : Check I Bool) (s : CheckState I)
      → Refuses reject
      → (require m reject rest s).0 ≡ ok true
      → ((m s).0 ≡ ok true) × ((rest (m s).1).0 ≡ ok true)
  require-eq-ok m reject rest s no_way h =
      let (passed, e, k) = >>=-eq-ok m (λ b. if b then rest else reject) s h in
      elim (Bool-cases passed) [
        | inl p ↦ (rw p at e, rw p at k)
        | inr p ↦ absurd (no_way (m s).1 (rw p at k))
      ]

  pub require_if-eq-ok :
      (b : Bool) (m reject rest : Check I Bool) (s : CheckState I)
      → Refuses reject
      → (require_if b m reject rest s).0 ≡ ok true
      → ((b ≡ false) × ((rest s).0 ≡ ok true))
        ⊎ ((b ≡ true) × ((m s).0 ≡ ok true) × ((rest (m s).1).0 ≡ ok true))
  require_if-eq-ok true m reject rest s no_way h =
      let (p, q) = require-eq-ok m reject rest s no_way h in inr (refl, p, q)
  require_if-eq-ok false m reject rest s no_way h = inl (refl, h)

  pub if-eq-ok :
      (b : Bool) (m n : Check I Bool) (s : CheckState I)
      → ((if b then m else n) s).0 ≡ ok true
      → ((b ≡ true) × ((m s).0 ≡ ok true)) ⊎ ((b ≡ false) × ((n s).0 ≡ ok true))
  if-eq-ok true m n s h = inl (refl, h)
  if-eq-ok false m n s h = inr (refl, h)

module _ {I A B : Type 0} where
  pub and_then-state :
      (r : Result A) (f : A → Check I B) (s : CheckState I)
      → ((a : A) → (f a s).1 ≡ s)
      → (and_then r f s).1 ≡ s
  and_then-state (ok a) f s h = h a
  and_then-state (fail e) f s h = refl
  and_then-state panic f s h = refl

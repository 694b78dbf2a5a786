-- ===== src/Queue/Manager/Cycle/Order.antt =====
-- The order in which a pass visits the items.
use mathlib.Core.List.{Perm}
use mathlib.Core.List.Perm
use asika.Prelude.{
  ◌≤◌, ◌<◌, ◌≡◌, ◌⊎◌, refl, true, false, List, [], ◌∷◌, All, arith, Bool-cases, inl, inr,
}
use asika.Prelude.Int.{lt_int, eq_int}
use asika.Models.{QueueItem}
use asika.Queue.World.{World}
use asika.Queue.Manager.Cycle.{before, is_put_first, insert_item, sort_items}

before_trans : (a b c : QueueItem) → before b a ≡ false → before c b ≡ false → before c a ≡ false
unfolding before
before_trans a b c h k = ground arith

before_asym : (a b : QueueItem) → before b a ≡ true → before a b ≡ false
unfolding before
before_asym a b h = ground arith

-- No item stands behind one that `before` puts in front of it.
abbrev IsUnbeaten : List QueueItem → Type 0
IsUnbeaten [] = Unit
IsUnbeaten (a ∷ rest) = All (λ b. before b a ≡ false) rest × IsUnbeaten rest

-- The first has the higher priority, or both have one priority and the first arrived no later.
abbrev pub Precedes : QueueItem → QueueItem → Type 0
Precedes a b =
    (lt_int b.priority a.priority ≡ true)
    ⊎ ((eq_int a.priority b.priority ≡ true) × (a.added_at ≤ b.added_at))

abbrev pub IsOrdered : List QueueItem → Type 0
IsOrdered [] = Unit
IsOrdered (a ∷ rest) = All (Precedes a) rest × IsOrdered rest

-- The same without ties: the first arrived earlier.
abbrev pub IsStrictlyBefore : QueueItem → QueueItem → Type 0
IsStrictlyBefore a b =
    (lt_int b.priority a.priority ≡ true)
    ⊎ ((eq_int a.priority b.priority ≡ true) × (a.added_at < b.added_at))

abbrev pub IsStrict : List QueueItem → Type 0
IsStrict [] = Unit
IsStrict (a ∷ rest) = All (IsStrictlyBefore a) rest × IsStrict rest

is_put_first-eq_false :
    (w : World) (a b : QueueItem) → is_put_first w b a ≡ false → before b a ≡ false
unfolding is_put_first
is_put_first-eq_false w a b h = ground (arith, h)

is_put_first-eq_true :
    (w : World) (a b : QueueItem) → is_put_first w b a ≡ true → before a b ≡ false
unfolding is_put_first
is_put_first-eq_true w a b h = elim (Bool-cases (before b a)) [
  | inl e ↦ before_asym a b e
  | inr e ↦ ground (arith, h, e)
]

before-Precedes : (a b : QueueItem) → before b a ≡ false → Precedes a b
unfolding before
before-Precedes a b h = elim (Bool-cases (lt_int b.priority a.priority)) [
  | inl e ↦ inl e
  | inr e ↦ inr (ground (arith, h, e), ground (arith, h, e))
]

is_put_first-strict :
    (w : World) (a b : QueueItem) → IsStrictlyBefore a b → is_put_first w b a ≡ false
unfolding is_put_first before
is_put_first-strict w a b (inl h) = ground (arith, h)
is_put_first-strict w a b (inr (h, k)) = ground (arith, h, k)

IsUnbeaten-All :
    (a : QueueItem) (rest : List QueueItem)
    → All (λ b. before b a ≡ false) rest
    → All (Precedes a) rest
IsUnbeaten-All a [] k = tt
IsUnbeaten-All a (b ∷ rest) (p, k) = (before-Precedes a b p, IsUnbeaten-All a rest k)

IsUnbeaten-IsOrdered : (items : List QueueItem) → IsUnbeaten items → IsOrdered items
IsUnbeaten-IsOrdered [] o = tt
IsUnbeaten-IsOrdered (a ∷ rest) (k, o) = (IsUnbeaten-All a rest k, IsUnbeaten-IsOrdered rest o)

All-before_trans :
    (a b : QueueItem) (rest : List QueueItem)
    → before b a ≡ false
    → All (λ c. before c b ≡ false) rest
    → All (λ c. before c a ≡ false) rest
All-before_trans a b [] h k = tt
All-before_trans a b (c ∷ rest) h (p, k) = (before_trans a b c h p, All-before_trans a b rest h k)

module _ (w : World) where
  All-insert :
      (x a : QueueItem) (rest : List QueueItem)
      → before a x ≡ false
      → All (λ c. before c x ≡ false) rest
      → All (λ c. before c x ≡ false) (insert_item w a rest)
  unfolding insert_item
  All-insert x a [] h k = (h, tt)
  All-insert x a (b ∷ rest) h (p, k) = elim (Bool-cases (is_put_first w b a)) [
    | inl e ↦ rw e (p, All-insert x a rest h k)
    | inr e ↦ rw e (h, (p, k))
  ]

  insert_item-IsUnbeaten :
      (a : QueueItem) (rest : List QueueItem) → IsUnbeaten rest → IsUnbeaten (insert_item w a rest)
  unfolding insert_item
  insert_item-IsUnbeaten a [] o = (tt, tt)
  insert_item-IsUnbeaten a (b ∷ rest) (k, o) = elim (Bool-cases (is_put_first w b a)) [
    | inl e ↦
        rw e (All-insert b a rest (is_put_first-eq_true w a b e) k, insert_item-IsUnbeaten a rest o)
    | inr e ↦
        let p : before b a ≡ false = is_put_first-eq_false w a b e in
        rw e ((p, All-before_trans a b rest p k), (k, o))
  ]

  insert_item-perm :
      (a : QueueItem) (rest : List QueueItem) → Perm (insert_item w a rest) (a ∷ rest)
  unfolding insert_item
  insert_item-perm a [] = Perm.refl _
  insert_item-perm a (b ∷ rest) = elim (Bool-cases (is_put_first w b a)) [
    | inl e ↦ rw e (Perm.trans (Perm.cons b (insert_item-perm a rest)) (Perm.swap a b rest))
    | inr e ↦ rw e (Perm.refl _)
  ]

  pub sort_items-perm : (items : List QueueItem) → Perm (sort_items w items) items
  unfolding sort_items
  sort_items-perm [] = Perm.refl _
  sort_items-perm (a ∷ rest) =
      Perm.trans (insert_item-perm a (sort_items w rest)) (Perm.cons a (sort_items-perm rest))

  pub sort_items-IsUnbeaten : (items : List QueueItem) → IsUnbeaten (sort_items w items)
  unfolding sort_items
  sort_items-IsUnbeaten [] = tt
  sort_items-IsUnbeaten (a ∷ rest) = insert_item-IsUnbeaten a _ (sort_items-IsUnbeaten rest)

  -- The sort of `CheckQueue`, wherever it puts equal items, orders the items by falling priority and,
  -- within one priority, by rising time of arrival, and has each of them exactly once.
  pub sort_items_lem :
      (items : List QueueItem) → IsOrdered (sort_items w items) × Perm (sort_items w items) items
  sort_items_lem items =
      (IsUnbeaten-IsOrdered _ (sort_items-IsUnbeaten items), sort_items-perm items)

  insert_item-head :
      (a : QueueItem) (rest : List QueueItem)
      → All (IsStrictlyBefore a) rest
      → insert_item w a rest ≡ a ∷ rest
  unfolding insert_item
  insert_item-head a [] k = refl
  insert_item-head a (b ∷ rest) (p, k) = rw (is_put_first-strict w a b p) refl

  -- Items that are in order without ties stay where they are.
  pub sort_items-eq_self : (items : List QueueItem) → IsStrict items → sort_items w items ≡ items
  unfolding sort_items
  sort_items-eq_self [] o = refl
  sort_items-eq_self (a ∷ rest) (k, o) = rw (sort_items-eq_self rest o) (insert_item-head a rest k)

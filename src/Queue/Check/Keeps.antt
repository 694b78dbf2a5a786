-- ===== src/Queue/Check/Keeps.antt =====
-- Facts about the queue item that an action of the checker keeps: one rule for each way to build an
-- action.
use asika.Prelude.{Bool, true, false, Bytes, Result, ok, fail, panic, Err, if◌then◌else◌}
use asika.Models.{PrRecord}
use asika.Queue.Check.{
  Check, CheckState, pure, throw, lift, get_pr, get_item, set_pr, set_item, add_label, transiently,
  and_then, require, require_if, ◌>>=◌,
}

-- The action `m` keeps `P`, whatever it answers.
pub record Keeps {I : Type 0} {A : Type 0} (P : I → Type 0) (m : Check I A) : Type 0 where
  pub at : (s : CheckState I) → P s.item → P (m s).1.item

module _ {I : Type 0} {P : I → Type 0} where
  module _ {A : Type 0} where
    pub Keeps-pure : (a : A) → Keeps P (pure a)
    Keeps-pure a = record { at = λ s h. h }

    pub Keeps-throw : (e : Err) → Keeps P (throw {A = A} e)
    Keeps-throw e = record { at = λ s h. h }

    pub Keeps-lift : (r : Result A) → Keeps P (lift r)
    Keeps-lift r = record { at = λ s h. h }

  pub Keeps-get_pr : Keeps P (get_pr {I = I})
  Keeps-get_pr = record { at = λ s h. h }

  pub Keeps-get_item : Keeps P (get_item {I = I})
  Keeps-get_item = record { at = λ s h. h }

  module _ {A B : Type 0} where
    and_then_lem :
        (r : Result A) (f : A → Check I B) (s : CheckState I)
        → ((a : A) → Keeps P (f a))
        → P s.item
        → P (and_then r f s).1.item
    and_then_lem (ok a) f s k h = (k a).at s h
    and_then_lem (fail e) f s k h = h
    and_then_lem panic f s k h = h

    pub Keeps-bind :
        (m : Check I A) (f : A → Check I B)
        → Keeps P m
        → ((a : A) → Keeps P (f a))
        → Keeps P (m >>= f)
    Keeps-bind m f km kf = record { at = λ s h. and_then_lem (m s).0 f (m s).1 kf (km.at s h) }

  pub Keeps-transiently : {A : Type 0} (m : Check I A) → Keeps P m → Keeps P (transiently m)
  Keeps-transiently m km = record { at = λ s h. km.at s h }

  pub Keeps-require :
      (m reject rest : Check I Bool)
      → Keeps P m
      → Keeps P reject
      → Keeps P rest
      → Keeps P (require m reject rest)
  Keeps-require m reject rest km kj kr = Keeps-bind m _ km (elim [ true ↦ kr | false ↦ kj ])

  pub Keeps-require_if :
      (b : Bool) (m reject rest : Check I Bool)
      → Keeps P m
      → Keeps P reject
      → Keeps P rest
      → Keeps P (require_if b m reject rest)
  Keeps-require_if true m reject rest km kj kr = Keeps-require m reject rest km kj kr
  Keeps-require_if false m reject rest km kj kr = kr

  pub Keeps-if :
      {A : Type 0} (b : Bool) (m n : Check I A)
      → Keeps P m
      → Keeps P n
      → Keeps P (if b then m else n)
  Keeps-if true m n km kn = km
  Keeps-if false m n km kn = kn

  pub Keeps-set_pr : (pr : PrRecord) → Keeps P (set_pr {I = I} pr)
  Keeps-set_pr pr = record { at = λ s h. h }

  pub Keeps-add_label : (label : Bytes) → Keeps P (add_label {I = I} label)
  Keeps-add_label label = record { at = λ s h. h }

  pub Keeps-set_item : (f : I → I) → ((i : I) → P i → P (f i)) → Keeps P (set_item f)
  Keeps-set_item f k = record { at = λ s h. k s.item h }

pub ruleset keeps_rules = (
  Keeps-pure, Keeps-throw, Keeps-lift, Keeps-get_pr, Keeps-get_item, Keeps-bind, Keeps-transiently,
  Keeps-require, Keeps-require_if, Keeps-if, Keeps-set_pr, Keeps-add_label,
)

-- ===== src/Queue/Check/Record.antt =====
-- Facts about the record of the pull request that an action of the checker keeps: one rule for each
-- way to build an action that does not write the record.
use asika.Prelude.{Bool, true, false, Result, ok, fail, panic, if◌then◌else◌}
use asika.Models.{PrRecord}
use asika.Queue.Check.{Check, CheckState, pure, lift, get_pr, and_then, require, require_if, ◌>>=◌}

-- The action `m` keeps `P` of the record, whatever it answers.
pub record KeepsPr {I : Type 0} {A : Type 0} (P : PrRecord → Type 0) (m : Check I A) : Type 0 where
  pub at : (s : CheckState I) → P s.pr → P (m s).1.pr

module _ {I : Type 0} {P : PrRecord → Type 0} where
  module _ {A : Type 0} where
    pub KeepsPr-pure : (a : A) → KeepsPr P (pure {I = I} a)
    KeepsPr-pure a = record { at = λ s h. h }

    pub KeepsPr-lift : (r : Result A) → KeepsPr P (lift {I = I} r)
    KeepsPr-lift r = record { at = λ s h. h }

  pub KeepsPr-get_pr : KeepsPr P (get_pr {I = I})
  KeepsPr-get_pr = record { at = λ s h. h }

  module _ {A B : Type 0} where
    and_then_lem :
        (r : Result A) (f : A → Check I B) (s : CheckState I)
        → ((a : A) → KeepsPr P (f a))
        → P s.pr
        → P (and_then r f s).1.pr
    and_then_lem (ok a) f s k h = (k a).at s h
    and_then_lem (fail e) f s k h = h
    and_then_lem panic f s k h = h

    pub KeepsPr-bind :
        (m : Check I A) (f : A → Check I B)
        → KeepsPr P m
        → ((a : A) → KeepsPr P (f a))
        → KeepsPr P (m >>= f)
    KeepsPr-bind m f km kf = record { at = λ s h. and_then_lem (m s).0 f (m s).1 kf (km.at s h) }

  pub KeepsPr-require :
      (m reject rest : Check I Bool)
      → KeepsPr P m
      → KeepsPr P reject
      → KeepsPr P rest
      → KeepsPr P (require m reject rest)
  KeepsPr-require m reject rest km kj kr = KeepsPr-bind m _ km (elim [ true ↦ kr | false ↦ kj ])

  pub KeepsPr-require_if :
      (b : Bool) (m reject rest : Check I Bool)
      → KeepsPr P m
      → KeepsPr P reject
      → KeepsPr P rest
      → KeepsPr P (require_if b m reject rest)
  KeepsPr-require_if true m reject rest km kj kr = KeepsPr-require m reject rest km kj kr
  KeepsPr-require_if false m reject rest km kj kr = kr

  pub KeepsPr-if :
      {A : Type 0} (b : Bool) (m n : Check I A)
      → KeepsPr P m
      → KeepsPr P n
      → KeepsPr P (if b then m else n)
  KeepsPr-if true m n km kn = km
  KeepsPr-if false m n km kn = kn

pub ruleset record_rules = (
  KeepsPr-pure, KeepsPr-lift, KeepsPr-get_pr, KeepsPr-bind, KeepsPr-require, KeepsPr-require_if,
  KeepsPr-if,
)

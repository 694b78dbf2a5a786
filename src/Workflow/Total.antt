-- ===== src/Workflow/Total.antt =====
-- The fuel of a condition is enough: every call inside another is on a shorter text.
use asika.Prelude.{ℕ, ◌<◌, none, some, List, Bytes, length, All, ok, fail, panic}
use asika.Workflow.Expression.{Fueled}

-- A value or an error: neither a run-time panic nor a call without fuel.
abbrev pub IsSettled : Fueled → Type 0
IsSettled none = ⊥
IsSettled (some (ok b)) = Unit
IsSettled (some (fail e)) = Unit
IsSettled (some panic) = ⊥

-- Every part is at most as long, or shorter.
Below : ℕ → List Bytes → Type 0
Below n = All (λ p. length p < n)

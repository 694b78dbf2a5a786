-- ===== src/Prelude/Errors.antt =====
-- Go's `(value, error)` results; `panic` is a call that ends in a run-time panic. `transient` is
-- the wrapper `TransientError` of checker.go.
use mathlib.Core.Path.{◌≡◌, refl}
use mathlib.Core.List.{◌++◌}
use mathlib.Core.Logic.{◌⊎◌, inl, inr}
use asika.Prelude.Text.{Bytes, lit}

pub data Err : Type 0 where
  plain : Bytes → Err
  transient : Err → Err

-- `err.Error()`
unfoldable pub error_text : Err → Bytes
error_text (plain s) = s
error_text (transient e) = lit "transient error: " ++ error_text e

pub data Result {ℓ} (A : Type ℓ) : Type ℓ where
  ok : A → Result A
  fail : Err → Result A
  panic : Result A

infixl 5 ◌>>=◌
abbrev pub ◌>>=◌ {ℓ κ} : {A : Type ℓ} {B : Type κ} → Result A → (A → Result B) → Result B
panic >>= next = panic
fail err >>= next = fail err
ok value >>= next = next value

-- `if err != nil { return …, &TransientError{Err: err} }`
abbrev pub wrap_transient {ℓ} : {A : Type ℓ} → Result A → Result A
wrap_transient (ok a) = ok a
wrap_transient (fail e) = fail (transient e)
wrap_transient panic = panic

-- `fmt.Errorf(text + "%w", err)`
abbrev pub prefix_error {ℓ} : {A : Type ℓ} → Bytes → Result A → Result A
prefix_error text (ok a) = ok a
prefix_error text (fail e) = fail (plain (text ++ error_text e))
prefix_error text panic = panic

-- What a chain with a result went through.
pub >>=-eq-ok {ℓ κ} :
    {B : Type κ} {A : Type ℓ} (first : Result A) (next : A → Result B) {answer : B}
    → (first >>= next) ≡ ok answer
    → (value : A) × (first ≡ ok value) × (next value ≡ ok answer)
>>=-eq-ok panic next h = cc
>>=-eq-ok (fail err) next h = cc
>>=-eq-ok (ok value) next h = (value, refl, h)

pub prefix_error-eq-ok {ℓ} :
    {A : Type ℓ} (text : Bytes) (m : Result A) {a : A} → prefix_error text m ≡ ok a → m ≡ ok a
prefix_error-eq-ok text (ok a) h = h
prefix_error-eq-ok text (fail e) h = cc
prefix_error-eq-ok text panic h = cc

pub wrap_transient-eq-ok {ℓ} :
    {A : Type ℓ} (m : Result A) {a : A} → wrap_transient m ≡ ok a → m ≡ ok a
wrap_transient-eq-ok (ok a) h = h
wrap_transient-eq-ok (fail e) h = cc
wrap_transient-eq-ok panic h = cc

pub Result-cases {ℓ} :
    {A : Type ℓ} (r : Result A)
    → ((a : A) × (r ≡ ok a)) ⊎ (((e : Err) × (r ≡ fail e)) ⊎ (r ≡ panic))
Result-cases (ok a) = inl (a, refl)
Result-cases (fail e) = inr (inl (e, refl))
Result-cases panic = inr (inr refl)

-- ===== src/Prelude/Results.antt =====
-- A Go call that returns a value or an error.
use grid_token_util.Prelude.Tests.{if◌then◌else◌}
use mathlib.Core.Bool.{Bool}
use mathlib.Core.Path.{◌≡◌, refl}
use mathlib.Core.Logic.{◌⊎◌, inl, inr}

pub data StoreError : Type 0 where
  not_found query_failed conflict invalid_points : StoreError

pub data Result {ℓ} (A : Type ℓ) : Type ℓ where
  ok : A → Result A
  err : StoreError → Result A

-- What is left of the state after a call: an error leaves it as it was.
abbrev pub after {ℓ} : {A : Type ℓ} → A → Result A → A
after a (ok b) = b
after a (err e) = a

-- The rest of a Go function goes on with the value, and an error returns from it.
infixl 5 ◌>>=◌
abbrev pub ◌>>=◌ {κ μ} : {X : Type κ} {Y : Type μ} (r : Result X) (rest : X → Result Y) → Result Y
r >>= rest = elim r [ err e ↦ err e | ok x ↦ rest x ]

infixl 5 ◌>>◌
abbrev pub ◌>>◌ {μ} : {Y : Type μ} (r : Result (Unit {0})) (rest : Result Y) → Result Y
r >> rest = elim r [ err e ↦ err e | ok x ↦ rest ]

-- `if err != nil { return … }` after a statement, and the test on the rows affected.
abbrev pub refuse_if : Bool → StoreError → Result (Unit {0})
refuse_if b e = if b then err e else ok tt

pub Result-cases :
    {A : Type 0} (r : Result A) → ((e : StoreError) × (r ≡ err e)) ⊎ ((a : A) × (r ≡ ok a))
Result-cases (ok a) = inr (a, refl)
Result-cases (err e) = inl (e, refl)

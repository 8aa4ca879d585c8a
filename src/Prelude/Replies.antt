-- ===== src/Prelude/Replies.antt =====
-- The monad of the handlers: a state, and an answer or an HTTP error.
use Prim.Native.Nat.{ℕ}
use Prim.Native.String.{String}
use mathlib.Core.Bool.{Bool}
use mathlib.Core.Option.{Option, none, some}
use grid_token_util.Prelude.Tests.{if◌then◌else◌}
use grid_token_util.Prelude.Results.{Result, ok, err}
use mathlib.Core.Path.{◌≡◌, refl}
use mathlib.Core.Logic.{◌⊎◌, inl, inr}

pub data Reply {ℓ} (A : Type ℓ) : Type ℓ where
  answer : A → Reply A
  refused : ℕ → String → Reply A

abbrev pub Handler : Type 0 → Type 0 → Type 0
Handler S A = S → S × Reply A

infixl 5 ◌>>=◌ ◌>>◌
abbrev pub ◌>>=◌ : {S A B : Type 0} → Handler S A → (A → Handler S B) → Handler S B
◌>>=◌ m f s = let r = m s in elim r.1 [ answer a ↦ f a r.0 | refused c e ↦ (r.0, refused c e) ]

abbrev pub ◌>>◌ : {S B : Type 0} → Handler S (Unit {0}) → Handler S B → Handler S B
m >> k = m >>= λ _. k

abbrev pub respond : {S A : Type 0} → A → Handler S A
respond a s = (s, answer a)

-- `writeError(w, code, msg); return`, unless the test holds.
abbrev pub check : {S : Type 0} → Bool → ℕ → String → Handler S (Unit {0})
check b c e s = (s, if b then answer tt else refused c e)

-- A value that must be there.
abbrev pub require : {S A : Type 0} → Option A → ℕ → String → Handler S A
require none c e s = (s, refused c e)
require (some a) c e s = (s, answer a)

-- A query, and a statement that writes.
abbrev pub fetch : {S A : Type 0} → (S → Result A) → ℕ → String → Handler S A
fetch f c e s = elim (f s) [ ok a ↦ (s, answer a) | err x ↦ (s, refused c e) ]

abbrev pub commit : {S : Type 0} → (S → Result S) → ℕ → String → Handler S (Unit {0})
commit f c e s = elim (f s) [ ok t ↦ (t, answer tt) | err x ↦ (s, refused c e) ]

-- A call whose error is only logged.
abbrev pub attempt : {S : Type 0} → (S → Result S) → Handler S (Unit {0})
attempt f s = elim (f s) [ ok t ↦ (t, answer tt) | err x ↦ (s, answer tt) ]

pub Reply-cases {ℓ} :
    {A : Type ℓ} (r : Reply A)
    → ((a : A) × (r ≡ answer a)) ⊎ ((code : ℕ) × (msg : String) × (r ≡ refused code msg))
Reply-cases (answer a) = inl (a, refl)
Reply-cases (refused code msg) = inr (code, msg, refl)

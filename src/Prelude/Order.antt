-- ===== src/Prelude/Order.antt =====
-- `ORDER BY`: the row that comes first, and the sorted rows. Rows that tie keep the table's order.
use mathlib.Core.Path.{◌≡◌, refl, subst}
use mathlib.Core.Bool.{Bool, true, false}
use mathlib.Core.Logic.{◌⊎◌, inl, inr}
use mathlib.Core.Option.{Option, none, some, some-injective}
use mathlib.Core.List.{List, [], ◌∷◌, Perm, Memᴰ}
use mathlib.Core.List.Perm
use grid_token_util.Prelude.Tests.{if◌then◌else◌, Bool-cases}
use grid_token_util.Prelude.Lists.{All}

-- What an order that a query sorts by satisfies: `before a b` is a strict weak order.
pub record IsOrder {ℓ} {A : Type ℓ} (before : A → A → Bool) : Type ℓ where
  pub asym : (a b : A) → before a b ≡ true → before b a ≡ false
  pub trans : (a b c : A) → before a b ≡ false → before b c ≡ false → before a c ≡ false

module _ {ℓ} {A : Type ℓ} (before : A → A → Bool) where
  lead : A → List A → A
  lead x [] = x
  lead x (y ∷ ys) = let r = lead y ys in if before r x then r else x

  -- `ORDER BY … LIMIT 1`.
  unfoldable pub first : List A → Option A
  unfolding lead
  first [] = none
  first (x ∷ xs) = some (lead x xs)

  insert : A → List A → List A
  insert x [] = x ∷ []
  insert x (y ∷ ys) = let rest = y ∷ insert x ys in if before y x then rest else x ∷ y ∷ ys

  -- `ORDER BY`.
  unfoldable pub sort : List A → List A
  unfolding insert
  sort [] = []
  sort (x ∷ xs) = insert x (sort xs)

  abbrev pub IsSorted : List A → Type ℓ
  IsSorted [] = Unit
  IsSorted (x ∷ xs) = All (λ y. before y x ≡ false) xs × IsSorted xs

  lead-All {κ} : (P : A → Type κ) (x : A) (xs : List A) → P x → All P xs → P (lead x xs)
  unfolding lead
  lead-All P x [] px all = px
  lead-All P x (y ∷ ys) px all = elim (Bool-cases (before (lead y ys) x)) [
    | inl h ↦ rw h (lead-All P y ys all.0 all.1)
    | inr h ↦ rw h px
  ]

  -- The first row is one of the rows: what holds of them all holds of it.
  pub first-All {κ} : (P : A → Type κ) (xs : List A) (b : A) → first xs ≡ some b → All P xs → P b
  unfolding first
  first-All P [] b h all = cc
  first-All P (x ∷ xs) b h all = subst P (some-injective _ _ h) (lead-All P x xs all.0 all.1)

  lead-Memᴰ : (x : A) (xs : List A) → Memᴰ (lead x xs) (x ∷ xs)
  unfolding lead
  lead-Memᴰ x [] = Memᴰ.head refl
  lead-Memᴰ x (y ∷ ys) = elim (Bool-cases (before (lead y ys) x)) [
    | inl h ↦ rw h (Memᴰ.tail (lead-Memᴰ y ys))
    | inr h ↦ rw h (Memᴰ.head refl)
  ]

  pub first-Memᴰ : (xs : List A) (b : A) → first xs ≡ some b → Memᴰ b xs
  unfolding first
  first-Memᴰ [] b h = cc
  first-Memᴰ (x ∷ xs) b h = subst (λ c. Memᴰ c (x ∷ xs)) (some-injective _ _ h) (lead-Memᴰ x xs)

  -- There is no first row exactly when there is no row.
  pub first-none : (xs : List A) → first xs ≡ none → xs ≡ []
  unfolding first
  first-none [] h = refl
  first-none (x ∷ xs) h = cc

  insert-All {κ} : (P : A → Type κ) (x : A) (xs : List A) → P x → All P xs → All P (insert x xs)
  unfolding insert
  insert-All P x [] px all = (px, tt)
  insert-All P x (y ∷ ys) px all = elim (Bool-cases (before y x)) [
    | inl h ↦ rw h (all.0, insert-All P x ys px all.1)
    | inr h ↦ rw h (px, all)
  ]

  -- Sorting invents no row.
  pub sort-All {κ} : (P : A → Type κ) (xs : List A) → All P xs → All P (sort xs)
  unfolding sort
  sort-All P [] all = tt
  sort-All P (x ∷ xs) all = insert-All P x (sort xs) all.0 (sort-All P xs all.1)

  insert-perm : (x : A) (xs : List A) → Perm (insert x xs) (x ∷ xs)
  unfolding insert
  insert-perm x [] = Perm.refl (x ∷ [])
  insert-perm x (y ∷ ys) = elim (Bool-cases (before y x)) [
    | inl h ↦ rw h (Perm.trans (Perm.cons y (insert-perm x ys)) (Perm.swap x y ys))
    | inr h ↦ rw h (Perm.refl (x ∷ y ∷ ys))
  ]

  -- Sorting loses no row either.
  pub sort-perm : (xs : List A) → Perm (sort xs) xs
  unfolding sort
  sort-perm [] = Perm.refl []
  sort-perm (x ∷ xs) = Perm.trans (insert-perm x (sort xs)) (Perm.cons x (sort-perm xs))

module _ {ℓ} {A : Type ℓ} {before : A → A → Bool} (o : IsOrder before) where
  no_better :
      (a b : A) (xs : List A)
      → before b a ≡ false
      → All (λ x. before x b ≡ false) xs
      → All (λ x. before x a ≡ false) xs
  no_better a b [] h all = tt
  no_better a b (x ∷ xs) h all = (o.trans x b a all.0 h, no_better a b xs h all.1)

  irrefl : (a : A) → before a a ≡ false
  irrefl a = elim (Bool-cases (before a a)) [ inl h ↦ o.asym a a h | inr h ↦ h ]

  lead-cases :
      (x y : A) (ys : List A)
      → ((before (lead before y ys) x ≡ true) × (lead before y ys ≡ lead before x (y ∷ ys)))
        ⊎ ((before (lead before y ys) x ≡ false) × (x ≡ lead before x (y ∷ ys)))
  unfolding lead
  lead-cases x y ys = elim (Bool-cases (before (lead before y ys) x)) [
    | inl h ↦ inl (h, rw h)
    | inr h ↦ inr (h, rw h)
  ]

  lead-least : (x : A) (xs : List A) → All (λ y. before y (lead before x xs) ≡ false) (x ∷ xs)
  lead-least x [] = unfold lead in (irrefl x, tt)
  lead-least x (y ∷ ys) = elim (lead-cases x y ys) [
    | inl (h, e) ↦
        subst (λ c. All (λ z. before z c ≡ false) (x ∷ y ∷ ys)) e (o.asym _ x h, lead-least y ys)
    | inr (h, e) ↦
        subst (λ c. All (λ z. before z c ≡ false) (x ∷ y ∷ ys)) e
          (irrefl x, no_better x (lead before y ys) (y ∷ ys) h (lead-least y ys))
  ]

  -- No row comes before the first one.
  pub first-least :
      (xs : List A) (b : A) → first before xs ≡ some b → All (λ x. before x b ≡ false) xs
  unfolding first
  first-least [] b h = tt
  first-least (x ∷ xs) b h =
      subst (λ c. All (λ y. before y c ≡ false) (x ∷ xs)) (some-injective _ _ h) (lead-least x xs)

  insert-IsSorted :
      (x : A) (xs : List A) → IsSorted before xs → IsSorted before (insert before x xs)
  unfolding insert
  insert-IsSorted x [] s = (tt, tt)
  insert-IsSorted x (y ∷ ys) s = elim (Bool-cases (before y x)) [
    | inl h ↦ rw h (
      insert-All before (λ z. before z y ≡ false) x ys (o.asym y x h) s.0,
      insert-IsSorted x ys s.1,
    )
    | inr h ↦ rw h ((h, no_better x y ys h s.0), s)
  ]

  -- No row stands behind one that it comes before.
  pub sort-IsSorted : (xs : List A) → IsSorted before (sort before xs)
  unfolding sort
  sort-IsSorted [] = tt
  sort-IsSorted (x ∷ xs) = insert-IsSorted x (sort before xs) (sort-IsSorted xs)

-- ===== src/Prelude/Lists.antt =====
-- Lists as the rows of a table and as the elements of a Go slice.
use Prim.Native.Nat.{ℕ, zero, suc, ◌+◌, ◌-◌, ◌≤◌}
use mathlib.Core.Path.{◌≡◌, refl, sym, subst}
use mathlib.Core.Bool.{Bool, true, false, ◌||◌}
use mathlib.Core.Logic.{inl, inr}
use mathlib.Core.Option.{Option, none, some, some-injective}
use mathlib.Core.List.{List, [], ◌∷◌, ◌++◌, Memᴰ}
use native.Mathlib.Omega.{arith}
use grid_token_util.Prelude.Tests.{if◌then◌else◌, Bool-cases}

module _ {ℓ} {A : Type ℓ} where
  abbrev pub length : List A → ℕ
  length [] = 0
  length (x ∷ xs) = suc (length xs)

  abbrev pub take : ℕ → List A → List A
  take zero xs = []
  take (suc n) [] = []
  take (suc n) (x ∷ xs) = x ∷ take n xs

  abbrev pub drop : ℕ → List A → List A
  drop zero xs = xs
  drop (suc n) [] = []
  drop (suc n) (x ∷ xs) = drop n xs

  -- Every element satisfies the predicate.
  abbrev pub All {κ} : (A → Type κ) → List A → Type κ
  All P [] = Unit
  All P (x ∷ xs) = P x × All P xs

  -- The rows that a `WHERE` clause keeps.
  abbrev pub select : (A → Bool) → List A → List A
  select p [] = []
  select p (x ∷ xs) = let rest = select p xs in if p x then x ∷ rest else rest

  -- `UPDATE … SET … WHERE …`.
  abbrev pub update : (A → Bool) → (A → A) → List A → List A
  update p f [] = []
  update p f (x ∷ xs) = (if p x then f x else x) ∷ update p f xs

  -- Whether some row is kept, as `RowsAffected() > 0` tests.
  abbrev pub exists : (A → Bool) → List A → Bool
  exists p [] = false
  exists p (x ∷ xs) = p x || exists p xs

  -- The first row that is kept, as `LIMIT 1` gives.
  abbrev pub find : (A → Bool) → List A → Option A
  find p [] = none
  find p (x ∷ xs) = if p x then some x else find p xs

  pub length-append : (xs ys : List A) → length (xs ++ ys) ≡ length xs + length ys
  length-append [] ys = omega arith
  length-append (x ∷ xs) ys = omega (arith, length-append xs ys)

  pub length-take : (n : ℕ) (xs : List A) → length (take n xs) ≤ n
  length-take zero xs = omega arith
  length-take (suc n) [] = omega arith
  length-take (suc n) (x ∷ xs) = omega (arith, length-take n xs)

  pub length-drop : (n : ℕ) (xs : List A) → length (drop n xs) ≡ length xs - n
  length-drop zero xs = omega arith
  length-drop (suc n) [] = omega arith
  length-drop (suc n) (x ∷ xs) = ground (arith, length-drop n xs)

  pub length-update : (p : A → Bool) (f : A → A) (xs : List A) → length (update p f xs) ≡ length xs
  length-update p f [] = refl
  length-update p f (x ∷ xs) = omega (arith, length-update p f xs)

module _ {ℓ} {A : Type ℓ} where
  -- Every kept row satisfies the test, and what holds of the rows that satisfy it.
  pub select-All {κ} :
      (P : A → Type κ) (p : A → Bool) (xs : List A)
      → All (λ x. p x ≡ true → P x) xs
      → All P (select p xs)
  select-All P p [] all = tt
  select-All P p (x ∷ xs) all = elim (Bool-cases (p x)) [
    | inl h ↦ rw h (all.0 h, select-All P p xs all.1)
    | inr h ↦ rw h (select-All P p xs all.1)
  ]

  -- What holds of every kept row holds of every row that satisfies the test.
  pub All-select {κ} :
      (P : A → Type κ) (p : A → Bool) (xs : List A)
      → All P (select p xs)
      → All (λ x. p x ≡ true → P x) xs
  All-select P p [] all = tt
  All-select P p (x ∷ xs) all = elim (Bool-cases (p x)) [
    | inl h ↦ let kept = rw h at all in ((λ _. kept.0), All-select P p xs kept.1)
    | inr h ↦ ((λ e. cc), All-select P p xs (rw h at all))
  ]

  pub All-map {κ μ} :
      {P : A → Type κ} {Q : A → Type μ} (f : (x : A) → P x → Q x) (xs : List A)
      → All P xs
      → All Q xs
  All-map f [] all = tt
  All-map f (x ∷ xs) all = (f x all.0, All-map f xs all.1)

  pub All-All {κ} : {P : A → Type κ} (f : (x : A) → P x) (xs : List A) → All P xs
  All-All f [] = tt
  All-All f (x ∷ xs) = (f x, All-All f xs)

  pub update-All {κ μ} :
      {P : A → Type κ} {Q : A → Type μ} (p : A → Bool) (f : A → A) (xs : List A)
      → ((x : A) → P x → p x ≡ true → Q (f x))
      → ((x : A) → P x → p x ≡ false → Q x)
      → All P xs
      → All Q (update p f xs)
  update-All p f [] hit miss all = tt
  update-All p f (x ∷ xs) hit miss all = elim (Bool-cases (p x)) [
    | inl h ↦ rw h (hit x all.0 h, update-All p f xs hit miss all.1)
    | inr h ↦ rw h (miss x all.0 h, update-All p f xs hit miss all.1)
  ]

  pub append-All {κ} : (P : A → Type κ) (xs ys : List A) → All P xs → All P ys → All P (xs ++ ys)
  append-All P [] ys hx hy = hy
  append-All P (x ∷ xs) ys hx hy = (hx.0, append-All P xs ys hx.1 hy)

  -- The row that a search finds satisfies the test, and what holds of all rows.
  pub find-All {κ} :
      (P : A → Type κ) (p : A → Bool) (xs : List A) (a : A)
      → find p xs ≡ some a
      → All P xs
      → (p a ≡ true) × P a
  find-All P p [] a h all = cc
  find-All P p (x ∷ xs) a h all = elim (Bool-cases (p x)) [
    | inl e ↦
        let found = rw e at h in
        subst (λ y. (p y ≡ true) × P y) (some-injective _ _ found) (e, all.0)
    | inr e ↦ find-All P p xs a (rw e at h) all.1
  ]

  pub find-Memᴰ : (p : A → Bool) (xs : List A) (a : A) → find p xs ≡ some a → Memᴰ a xs
  find-Memᴰ p [] a h = cc
  find-Memᴰ p (x ∷ xs) a h = elim (Bool-cases (p x)) [
    | inl e ↦ Memᴰ.head (sym (some-injective _ _ (rw e at h)))
    | inr e ↦ Memᴰ.tail (find-Memᴰ p xs a (rw e at h))
  ]

  pub select-empty : (p : A → Bool) (xs : List A) → select p xs ≡ [] → All (λ x. p x ≡ false) xs
  select-empty p [] h = tt
  select-empty p (x ∷ xs) h = elim (Bool-cases (p x)) [
    | inl e ↦ cc (rw e at h)
    | inr e ↦ (e, select-empty p xs (rw e at h))
  ]

  cons_mem :
      {a : A} (x : A) (xs ys : List A) → Memᴰ a (x ∷ ys) → (Memᴰ a ys → Memᴰ a xs) → Memᴰ a (x ∷ xs)
  cons_mem x xs ys (Memᴰ.head e) f = Memᴰ.head e
  cons_mem x xs ys (Memᴰ.tail m) f = Memᴰ.tail (f m)

  pub select-Memᴰ : (p : A → Bool) (xs : List A) {a : A} → Memᴰ a (select p xs) → Memᴰ a xs
  select-Memᴰ p [] m = m
  select-Memᴰ p (x ∷ xs) m = elim (Bool-cases (p x)) [
    | inl e ↦ cons_mem x xs (select p xs) (rw e at m) (select-Memᴰ p xs)
    | inr e ↦ Memᴰ.tail (select-Memᴰ p xs (rw e at m))
  ]

  pub Memᴰ-All {κ} : (P : A → Type κ) (xs : List A) {a : A} → Memᴰ a xs → All P xs → P a
  Memᴰ-All P [] m all = elim m [ ]
  Memᴰ-All P (x ∷ xs) (Memᴰ.head e) all = subst P (sym e) all.0
  Memᴰ-All P (x ∷ xs) (Memᴰ.tail m) all = Memᴰ-All P xs m all.1

  pub take-All {κ} : (P : A → Type κ) (n : ℕ) (xs : List A) → All P xs → All P (take n xs)
  take-All P zero xs all = tt
  take-All P (suc n) [] all = tt
  take-All P (suc n) (x ∷ xs) all = (all.0, take-All P n xs all.1)

  pub drop-All {κ} : (P : A → Type κ) (n : ℕ) (xs : List A) → All P xs → All P (drop n xs)
  drop-All P zero xs all = all
  drop-All P (suc n) [] all = tt
  drop-All P (suc n) (x ∷ xs) all = drop-All P n xs all.1

-- ===== src/Prelude/Searches.antt =====
-- What a search of the rows of a table finds after a row is added or some are updated.
use mathlib.Core.Path.{◌≡◌, refl, ap}
use mathlib.Core.Bool.{Bool, true, false}
use mathlib.Core.Logic.{inl, inr}
use mathlib.Core.Option.{some, some-injective}
use mathlib.Core.List.{List, [], ◌∷◌, ◌++◌}
use grid_token_util.Prelude.Tests.{if◌then◌else◌, Bool-cases}
use grid_token_util.Prelude.Lists.{All, update, exists, find}

module _ {ℓ} {A : Type ℓ} where
  pub exists-All : (p : A → Bool) (xs : List A) → exists p xs ≡ false → All (λ x. p x ≡ false) xs
  exists-All p [] h = tt
  exists-All p (x ∷ xs) h = elim (Bool-cases (p x)) [
    | inl e ↦ cc (rw e at h)
    | inr e ↦ (e, exists-All p xs (rw e at h))
  ]

  pub exists-find :
      (p : A → Bool) (xs : List A) → exists p xs ≡ true → (a : A) × (find p xs ≡ some a)
  exists-find p [] h = cc
  exists-find p (x ∷ xs) h = elim (Bool-cases (p x)) [
    | inl e ↦ (x, rw e refl)
    | inr e ↦ rw e (exists-find p xs (rw e at h))
  ]

  -- A row that is added at the end is found where no other row passes the test, and changes no search that it does not pass.
  pub find-append :
      (p : A → Bool) (xs : List A) (y : A)
      → All (λ x. p x ≡ false) xs
      → p y ≡ true
      → find p (xs ++ y ∷ []) ≡ some y
  find-append p [] y all h = rw h refl
  find-append p (x ∷ xs) y all h = rw all.0 (find-append p xs y all.1 h)

  pub find-append_other :
      (p : A → Bool) (xs : List A) (y : A) → p y ≡ false → find p (xs ++ y ∷ []) ≡ find p xs
  find-append_other p [] y h = rw h refl
  find-append_other p (x ∷ xs) y h = elim (Bool-cases (p x)) [
    | inl e ↦ rw e refl
    | inr e ↦ rw e (find-append_other p xs y h)
  ]

  pub find-update :
      (p : A → Bool) (f : A → A) (xs : List A) {a : A}
      → ((x : A) → p x ≡ true → p (f x) ≡ true)
      → find p xs ≡ some a
      → find p (update p f xs) ≡ some (f a)
  find-update p f [] keeps h = cc
  find-update p f (x ∷ xs) keeps h = elim (Bool-cases (p x)) [
    | inl e ↦ rw e (rw (keeps x e) (ap (λ y. some (f y)) (some-injective _ _ (rw e at h))))
    | inr e ↦ rw e (rw e (find-update p f xs keeps (rw e at h)))
  ]

  pub find-update_other :
      (p q : A → Bool) (f : A → A) (xs : List A)
      → ((x : A) → p x ≡ true → q (f x) ≡ q x)
      → ((x : A) → p x ≡ true → q x ≡ false)
      → find q (update p f xs) ≡ find q xs
  find-update_other p q f [] same misses = refl
  find-update_other p q f (x ∷ xs) same misses = elim (Bool-cases (p x)) [
    | inl e ↦ rw e (rw (same x e) (rw (misses x e) (find-update_other p q f xs same misses)))
    | inr e ↦ rw e (ap (λ r. if q x then some x else r) (find-update_other p q f xs same misses))
  ]

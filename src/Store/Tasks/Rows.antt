-- ===== src/Store/Tasks/Rows.antt =====
-- The rows of one task under the updates of control-plane/internal/store/postgres/tasks.go.
use grid_token_util.Prelude.{
  ◌≡◌, refl, ap, ◌≢◌, Bool, Bool-cases, inl, inr, List, [], ◌∷◌, arith, select, update, exists, map,
}
use grid_token_util.Domain.{Uuid, Task}
use grid_token_util.Store.Tasks.{is_task}

module _ (f : Task → Task) (keep : (t : Task) → (f t).id ≡ t.id) where
  -- An update of one task keeps the rows of another.
  pub select-update_other :
      (i j : Uuid) (tasks : List Task)
      → i ≢ j
      → select (is_task i) (update (is_task j) f tasks) ≡ select (is_task i) tasks
  select-update_other i j [] ne = refl
  select-update_other i j (t ∷ ts) ne = ground (arith, keep t, select-update_other i j ts ne)

  pub exists-update :
      (i j : Uuid) (tasks : List Task)
      → exists (is_task i) (update (is_task j) f tasks) ≡ exists (is_task i) tasks
  exists-update i j [] = refl
  exists-update i j (t ∷ ts) = ground (arith, keep t, exists-update i j ts)

  -- A column that the update does not set keeps its values.
  pub map-update {κ} :
      {B : Type κ} (g : Task → B)
      → ((t : Task) → g (f t) ≡ g t)
      → (p : Task → Bool) (tasks : List Task) → map g (update p f tasks) ≡ map g tasks
  map-update g same p [] = refl
  map-update g same p (t ∷ ts) = elim (Bool-cases (p t)) [
    | inl e ↦ rw e (rw (same t) (ap (◌∷◌ (g t)) (map-update g same p ts)))
    | inr e ↦ rw e (ap (◌∷◌ (g t)) (map-update g same p ts))
  ]

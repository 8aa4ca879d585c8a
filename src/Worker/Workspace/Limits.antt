-- ===== src/Worker/Workspace/Limits.antt =====
-- What the clone asks of git and when the quota of grid-worker/internal/workspace kills a task.
use grid_token_util.Prelude.{
  ℕ, ◌≡◌, ◌≢◌, refl, Bool, true, false, ◌⊎◌, inl, inr, Option, none, some, List, [], ◌∷◌, exists,
  Bool-cases, arith,
}
use grid_token_util.Security.{Bytes}
use grid_token_util.Worker.Workspace.{
  CloneOptions, GitAnswer, clone_repo, is_valid_branch, Entry, total_bytes, watch,
}

-- git is asked for a branch only if the branch is empty or all its bytes are safe.
pub clone_repo-safe :
    (git : CloneOptions → GitAnswer) (opens : Bool) (url branch : Bytes)
    → (clone_repo git opens url branch).calls ≢ []
    → (branch ≡ []) ⊎ (is_valid_branch branch ≡ true)
unfolding clone_repo
clone_repo-safe git opens url [] h = inl refl
clone_repo-safe git opens url (b ∷ bs) h = elim (Bool-cases (is_valid_branch (b ∷ bs))) [
  | inl e ↦ inr e
  | inr e ↦ elim (h (ground (arith, e))) [ ]
]

abbrev over : (ℕ → Bool) → Option (List Entry) → Bool
over exceeds none = false
over exceeds (some es) = exceeds (total_bytes es)

-- The task is killed once where some walk finds more than the limit, and never otherwise.
pub watch-kills :
    (exceeds : ℕ → Bool) (ticks : List (Option (List Entry)))
    → ((exists (over exceeds) ticks ≡ true) × (watch exceeds ticks ≡ 1))
      ⊎ ((exists (over exceeds) ticks ≡ false) × (watch exceeds ticks ≡ 0))
unfolding watch
watch-kills exceeds [] = inr (refl, refl)
watch-kills exceeds (none ∷ ticks) = watch-kills exceeds ticks
watch-kills exceeds (some es ∷ ticks) = elim (Bool-cases (exceeds (total_bytes es))) [
  | inl e ↦ inl (rw e refl, rw e refl)
  | inr e ↦ rw e (watch-kills exceeds ticks)
]

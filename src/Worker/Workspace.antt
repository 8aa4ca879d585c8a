-- ===== src/Worker/Workspace.antt =====
-- grid-worker/internal/workspace: clone.go and quota.go. git and the walk of the file system are arguments; a text is the list of its
-- bytes, and the size of a workspace stays below 2^63 bytes.
pub mod Limits
use grid_token_util.Prelude.{
  ℕ, zero, suc, ◌+◌, ◌==◌, Bool, true, false, not, ◌&&◌, ◌||◌, Option, none, some, List, [], ◌∷◌,
  if◌then◌else◌, leb,
}
use grid_token_util.Security.{Bytes}

-- A byte of `[a-zA-Z0-9._/\-]`.
abbrev is_branch_byte : ℕ → Bool
is_branch_byte b =
    leb 97 b && leb b 122
    || leb 65 b && leb b 90
    || leb 48 b && leb b 57
    || b == 46
    || b == 95
    || b == 47
    || b == 45

unfoldable pub are_branch_bytes : Bytes → Bool
are_branch_bytes [] = true
are_branch_bytes (b ∷ bs) = is_branch_byte b && are_branch_bytes bs

-- `validBranchRe`: one such byte or more.
unfoldable pub is_valid_branch : Bytes → Bool
is_valid_branch [] = false
is_valid_branch (b ∷ bs) = are_branch_bytes (b ∷ bs)

-- What is asked of git: `branch` is the branch of `ReferenceName`, `none` where that is not set. The depth is 1 and no tags are
-- fetched.
pub record CloneOptions : Type 0 where
  pub url : Bytes
  pub branch : Option Bytes
  pub single_branch : Bool

pub data GitAnswer : Type 0 where
  cloned already_exists clone_failed : GitAnswer

pub data CloneResult : Type 0 where
  done invalid_branch failed : CloneResult

-- The clones that were asked for, the branch of a checkout, and the result.
pub record Cloning : Type 0 where
  pub calls : List CloneOptions
  pub checkout : Option Bytes
  pub result : CloneResult

abbrev first_options : Bytes → Bytes → CloneOptions
first_options url branch = record { url = url; branch = some branch; single_branch = true }

abbrev fallback_options : Bytes → CloneOptions
fallback_options url = record { url = url; branch = none; single_branch = false }

abbrev is_empty : Bytes → Bool
is_empty [] = true
is_empty (b ∷ bs) = false

-- The second clone, without the branch; `opens` is whether the repository and its work tree open after it. The result of the
-- checkout is not used.
unfoldable pub fall_back : (CloneOptions → GitAnswer) → Bool → Bytes → Bytes → Cloning
fall_back git opens url branch =
    let calls = first_options url branch ∷ fallback_options url ∷ [] in
    elim (git (fallback_options url)) [
      | cloned ↦ record {
        calls = calls;
        checkout = if opens then some branch else none;
        result = done;
      }
      | _ ↦ record { calls = calls; checkout = none; result = failed }
    ]

unfoldable pub clone_repo : (CloneOptions → GitAnswer) → Bool → Bytes → Bytes → Cloning
unfolding is_valid_branch fall_back
clone_repo git opens url branch =
    if not (is_empty branch) && not (is_valid_branch branch)
    then record { calls = []; checkout = none; result = invalid_branch }
    else elim (git (first_options url branch)) [
      | clone_failed ↦
          if is_empty branch
          then record { calls = first_options url branch ∷ []; checkout = none; result = failed }
          else fall_back git opens url branch
      | _ ↦ record { calls = first_options url branch ∷ []; checkout = none; result = done }
    ]

-- An entry of the walk: a directory, a file whose size cannot be read, or the size of a file.
pub data Entry : Type 0 where
  inaccessible directory : Entry
  file : ℕ → Entry

-- The bytes that `measureUsageGB` adds up.
unfoldable pub total_bytes : List Entry → ℕ
total_bytes [] = 0
total_bytes (file n ∷ es) = n + total_bytes es
total_bytes (_ ∷ es) = total_bytes es

-- The loop of the monitor over what the ticks find until its context is cancelled, `none` where the walk fails: the number of times
-- `killFn` is called. `exceeds` compares the bytes with the limit, as numbers of gigabytes.
unfoldable pub watch : (ℕ → Bool) → List (Option (List Entry)) → ℕ
unfolding total_bytes
watch exceeds [] = 0
watch exceeds (none ∷ ticks) = watch exceeds ticks
watch exceeds (some es ∷ ticks) =
    let rest = watch exceeds ticks in if exceeds (total_bytes es) then 1 else rest

-- ===== src/Worker/Paths.antt =====
-- The two tests that a path stays in its workspace: the one of `Pack` in
-- grid-worker/internal/reporter/packer.go and `AssertContained` in grid-worker/internal/workspace/manager.go.
-- A path is the list of its bytes, after `filepath.Clean` and `filepath.Abs`, with "/" as separator.
pub mod Containment
use grid_token_util.Prelude.{
  ℕ, suc, ◌==◌, Bool, true, false, not, ◌&&◌, ◌||◌, List, [], ◌∷◌, ◌++◌, if◌then◌else◌, leb, length,
  take,
}
use grid_token_util.Security.{Bytes, bytes_eq}

abbrev pub slash : ℕ
slash = 47

-- `clean_abs` is the cleaned path of the artifact.
unfoldable pub packs : Bytes → Bytes → Bool
unfolding bytes_eq
packs workspace clean_abs =
    if leb (length clean_abs) (length workspace)
      || not (bytes_eq (take (suc (length workspace)) clean_abs) (workspace ++ slash ∷ []))
    then bytes_eq clean_abs workspace
    else true

unfoldable pub has_prefix : Bytes → Bytes → Bool
has_prefix s [] = true
has_prefix [] (b ∷ bs) = false
has_prefix (a ∷ rest) (b ∷ bs) = a == b && has_prefix rest bs

-- `strings.HasSuffix` with the separator.
unfoldable pub ends_with_slash : Bytes → Bool
ends_with_slash [] = false
ends_with_slash (b ∷ []) = b == slash
ends_with_slash (b ∷ c ∷ rest) = ends_with_slash (c ∷ rest)

unfoldable pub assert_contained : Bytes → Bytes → Bool
unfolding bytes_eq has_prefix ends_with_slash
assert_contained workspace file =
    bytes_eq file workspace
    || has_prefix file (if ends_with_slash workspace then workspace else workspace ++ slash ∷ [])

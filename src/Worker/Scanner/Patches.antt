-- ===== src/Worker/Scanner/Patches.antt =====
-- Which added lines of a patch grid-worker/internal/scanner/scanner.go scans, and what a finding shows.
use grid_token_util.Prelude.{
  Bool, false, ℕ, zero, suc, ◌≡◌, ◌≤◌, true, List, [], ◌∷◌, if◌then◌else◌, leb, take, length,
  length-append, arith,
}
use grid_token_util.Security.{Bytes}
use grid_token_util.Worker.Paths.{has_prefix}
use grid_token_util.Worker.Scanner.{
  Ruleset, Cursor, redact, scan_added, plus, stars, file_header, hunk_header, minus_line,
}

-- A line of the diff with its sign, and nothing cancelled.
abbrev pub added : Bytes → Bytes
added content = plus ∷ content

length-take : (n : ℕ) (s : Bytes) → length (take n s) ≤ n
length-take zero s = omega arith
length-take (suc n) [] = omega arith
length-take (suc n) (b ∷ bs) = omega (arith, length-take n bs)

-- A finding shows at most the first four bytes of what it found, then three stars; of a match of four bytes or
-- fewer it shows the stars alone.
pub redact_bound :
    (s : Bytes) → (length (redact s) ≤ 7) × (leb (length s) 4 ≡ true → redact s ≡ stars)
unfolding redact
redact_bound s =
    (ground (arith, length-append (take 4 s) stars, length-take 4 s), λ h. ground arith)

-- Lines that are read before the context is cancelled.
unfoldable pub read : List Bytes → List (Bytes × Bool) → List (Bytes × Bool)
read [] rest = rest
read (l ∷ ls) rest = (l, false) ∷ read ls rest

-- A line inside a hunk: neither the header of a file nor of a hunk.
abbrev pub IsBody : Bytes → Type 0
IsBody l = (has_prefix l file_header ≡ false) × (has_prefix l hunk_header ≡ false)

-- The lines of the new file among the lines of a hunk: those that are not removed.
unfoldable pub kept : List Bytes → ℕ
kept [] = 0
kept (l ∷ ls) = let rest = kept ls in if has_prefix l minus_line then rest else suc rest

-- An added line whose content begins with "++" is read as a header of a file: it has no finding, whatever the
-- rules are.
pub scan_added-misses :
    (rs : Ruleset) (c : Cursor) (content : Bytes)
    → scan_added rs c (added (plus ∷ plus ∷ content)) ≡ []
unfolding scan_added has_prefix
scan_added-misses rs c content = ground arith

-- ===== src/Worker/Preflight/Git.antt =====
-- grid-worker/internal/preflight/checks.go: the version in the output of `git --version`, a list of bytes. The functions
-- `strings.Fields`, `strings.Split` and `strconv.Atoi` are written out for it.
use grid_token_util.Prelude.{
  ℕ, ◌+◌, ◌-◌, ◌*◌, ◌^◌, ◌==◌, Bool, true, false, not, ◌&&◌, ◌||◌, Option, none, some, List, [],
  ◌∷◌, if◌then◌else◌, ltb, leb,
}
use grid_token_util.Prelude.Int.{ℤ, pos, neg, ltb_ℤ}
use grid_token_util.Security.{Bytes}

-- What the output says: git is missing, the version cannot be read, or it is compared with 2.30.
pub data GitVerdict : Type 0 where
  git_failed unreadable too_old recent : GitVerdict

-- The white space of ASCII, which `strings.TrimSpace` and `strings.Fields` drop.
unfoldable pub is_space : ℕ → Bool
is_space b = b == 32 || leb 9 b && leb b 13

abbrev pub cons_part : Bytes → List Bytes → List Bytes
cons_part [] parts = parts
cons_part (b ∷ word) parts = (b ∷ word) ∷ parts

-- The first word of a text and the words after it; the first is empty where the text starts with a space.
unfoldable pub words : Bytes → Bytes × List Bytes
words [] = ([], [])
words (b ∷ bytes) =
    let rest = words bytes in
    if is_space b then ([], cons_part rest.0 rest.1) else (b ∷ rest.0, rest.1)

unfoldable pub fields : Bytes → List Bytes
fields bytes = let w = words bytes in cons_part w.0 w.1

-- `strings.Split(s, ".")`, which is never empty: its first part and the others.
unfoldable pub split_dots : Bytes → Bytes × List Bytes
split_dots [] = ([], [])
split_dots (b ∷ bytes) =
    let rest = split_dots bytes in if b == 46 then ([], rest.0 ∷ rest.1) else (b ∷ rest.0, rest.1)

-- The decimal digits of a number, none where another byte comes.
unfoldable pub digits_from : ℕ → Bytes → Option ℕ
digits_from n [] = some n
digits_from n (b ∷ bytes) =
    let rest = digits_from (n * 10 + (b - 48)) bytes in if leb 48 b && leb b 57 then rest else none

unfoldable pub number : Bytes → Option ℕ
number [] = none
number (b ∷ bytes) = digits_from 0 (b ∷ bytes)

abbrev pub int_max : ℕ
int_max = 2 ^ 63 - 1

-- `strconv.Atoi` on a 64-bit machine: a sign, digits, and the range of `int`.
unfoldable pub atoi : Bytes → Option ℤ
atoi [] = none
atoi (b ∷ bytes) =
    if b == 45
    then elim (number bytes) [
      | none ↦ none
      | some n ↦ if ltb (int_max + 1) n then none else some (neg (pos n))
    ]
    else elim (number (if b == 43 then bytes else b ∷ bytes)) [
      | none ↦ none
      | some n ↦ if ltb int_max n then none else some (pos n)
    ]

-- `major < 2 || (major == 2 && minor < 30)`.
unfoldable pub is_too_old : ℤ → ℤ → Bool
is_too_old major minor = ltb_ℤ major (pos 2) || not (ltb_ℤ (pos 2) major) && ltb_ℤ minor (pos 30)

unfoldable pub parts_verdict : Bytes × List Bytes → GitVerdict
parts_verdict (first, []) = unreadable
parts_verdict (first, second ∷ _) = elim (atoi first) [
  | none ↦ unreadable
  | some major ↦ elim (atoi second) [
    | none ↦ unreadable
    | some minor ↦ if is_too_old major minor then too_old else recent
  ]
]

unfoldable pub version_verdict : Bytes → GitVerdict
version_verdict version = parts_verdict (split_dots version)

-- The third word of the output.
unfoldable pub output_verdict : List Bytes → GitVerdict
output_verdict (_ ∷ _ ∷ version ∷ _) = version_verdict version
output_verdict _ = unreadable

unfoldable pub git_verdict : Bool → Option Bytes → GitVerdict
git_verdict false out = git_failed
git_verdict true none = git_failed
git_verdict true (some out) = output_verdict (fields out)

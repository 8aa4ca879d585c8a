-- ===== src/Worker/Preflight/Version.antt =====
-- grid-worker/internal/preflight/checks.go: the versions that git prints, and the test on them.
use grid_token_util.Prelude.{
  ℕ, ◌+◌, ◌*◌, ◌<◌, ◌≤◌, ◌≡◌, ◌⊎◌, ◌↔◌, ◌==◌, refl, ap, ◌∙◌, true, false, ◌&&◌, ◌||◌, some, List,
  [], ◌∷◌, ◌++◌, if◌then◌else◌, arith, ltb, All, append-All,
}
use grid_token_util.Prelude.Int.{pos}
use grid_token_util.Security.{Bytes}
use grid_token_util.Worker.Preflight.Git.{
  GitVerdict, too_old, recent, is_space, words, cons_part, fields, split_dots, digits_from, number,
  int_max, atoi, is_too_old, parts_verdict, version_verdict, output_verdict, git_verdict,
}

-- The digits of a number as text, and the number that they stand for after `n`.
abbrev pub text : List ℕ → Bytes
text [] = []
text (d ∷ ds) = (48 + d) ∷ text ds

abbrev pub value_from : ℕ → List ℕ → ℕ
value_from n [] = n
value_from n (d ∷ ds) = value_from (n * 10 + d) ds

abbrev pub IsDigit : ℕ → Type 0
IsDigit d = d < 10

digits_from-text :
    (n : ℕ) (ds : List ℕ) → All IsDigit ds → digits_from n (text ds) ≡ some (value_from n ds)
unfolding digits_from
digits_from-text n [] all = refl
digits_from-text n (d ∷ ds) all = ground (arith, digits_from-text (n * 10 + d) ds all.1)

atoi-text :
    (d : ℕ) (ds : List ℕ)
    → All IsDigit (d ∷ ds)
    → value_from 0 (d ∷ ds) ≤ int_max
    → atoi (text (d ∷ ds)) ≡ some (pos (value_from 0 (d ∷ ds)))
unfolding atoi number
atoi-text d ds all small = ground (arith, digits_from-text 0 (d ∷ ds) all)

-- What follows the digits of the second part: nothing, or another part.
abbrev pub IsTail : Bytes → Type 0
IsTail [] = Unit
IsTail (b ∷ bytes) = (b ≡ 46) × All (λ c. is_space c ≡ false) bytes

split_dots-text :
    (ds : List ℕ) (rest : Bytes)
    → All IsDigit ds
    → split_dots (text ds ++ rest) ≡ (let after = split_dots rest in (text ds ++ after.0, after.1))
unfolding split_dots
split_dots-text [] rest all = refl
split_dots-text (d ∷ ds) rest all = ground (arith, split_dots-text ds rest all.1)

words-plain :
    (bytes rest : Bytes)
    → All (λ c. is_space c ≡ false) bytes
    → words (bytes ++ rest) ≡ (let after = words rest in (bytes ++ after.0, after.1))
unfolding words
words-plain [] rest all = refl
words-plain (b ∷ bytes) rest all = ground (arith, words-plain bytes rest all.1)

text-plain : (ds : List ℕ) → All IsDigit ds → All (λ c. is_space c ≡ false) (text ds)
unfolding is_space
text-plain [] all = tt
text-plain (d ∷ ds) all = (ground (arith, all.0), text-plain ds all.1)

tail-plain : (bytes : Bytes) → IsTail bytes → All (λ c. is_space c ≡ false) bytes
unfolding is_space
tail-plain [] h = tt
tail-plain (b ∷ bytes) h = (ground (arith, h.0), h.1)

split_dots-tail : (bytes : Bytes) → IsTail bytes → (split_dots bytes).0 ≡ []
unfolding split_dots
split_dots-tail [] h = refl
split_dots-tail (b ∷ bytes) h = ground (arith, h.0)

append-nil : (bytes : Bytes) → bytes ++ [] ≡ bytes
append-nil [] = refl
append-nil (b ∷ bytes) = ap (λ l. b ∷ l) (append-nil bytes)

words-space :
    (b : ℕ) (bytes rest : Bytes)
    → is_space b ≡ true
    → All (λ c. is_space c ≡ false) bytes
    → words (bytes ++ b ∷ rest) ≡ (bytes, fields rest)
unfolding words fields
words-space b bytes rest e all = words-plain bytes (b ∷ rest) all ∙ first
  where
    space : words (b ∷ rest) ≡ ([], fields rest)
    space = ground (arith, e)

    first :
        ◌≡◌ {A = Bytes × List Bytes}
          (bytes ++ (words (b ∷ rest)).0, (words (b ∷ rest)).1)
          (bytes, fields rest)
    first =
        ap (λ (w : Bytes × List Bytes). (bytes ++ w.0, w.1)) space
        ∙ ap (λ l. (l, fields rest)) (append-nil bytes)

fields_of_nothing : fields [] ≡ []
unfolding fields words
fields_of_nothing = refl

-- A word that starts with some byte, and a space after it.
fields-word :
    (b c : ℕ) (bytes rest : Bytes)
    → is_space b ≡ true
    → All (λ c. is_space c ≡ false) (c ∷ bytes)
    → fields ((c ∷ bytes) ++ b ∷ rest) ≡ (c ∷ bytes) ∷ fields rest
unfolding fields
fields-word b c bytes rest e all =
    ap (λ (w : Bytes × List Bytes). cons_part w.0 w.1) (words-space b (c ∷ bytes) rest e all)

-- A version: two numbers in decimal, and what follows them.
abbrev pub version_text : List ℕ → List ℕ → Bytes → Bytes
version_text ds es tail = text ds ++ (46 ∷ (text es ++ tail))

version-plain :
    (ds es : List ℕ) (tail : Bytes)
    → All IsDigit ds
    → All IsDigit es
    → IsTail tail
    → All (λ c. is_space c ≡ false) (version_text ds es tail)
unfolding is_space
version-plain ds es tail hd he ht =
    append-All _ (text ds) (46 ∷ (text es ++ tail)) (text-plain ds hd)
      (refl, append-All _ (text es) tail (text-plain es he) (tail-plain tail ht))

-- `major` and `minor` against 2.30.
abbrev pub compared : ℕ → ℕ → GitVerdict
compared major minor = if ltb major 2 || major == 2 && ltb minor 30 then too_old else recent

split_dots-part :
    (ds : List ℕ) (tail : Bytes)
    → All IsDigit ds
    → IsTail tail
    → split_dots (text ds ++ tail) ≡ (text ds, (split_dots tail).1)
split_dots-part ds tail all h =
    split_dots-text ds tail all
    ∙ ap (λ l. (text ds ++ l, (split_dots tail).1)) (split_dots-tail tail h)
    ∙ ap (λ l. (l, (split_dots tail).1)) (append-nil (text ds))

split_dots-version :
    (ds es : List ℕ) (tail : Bytes)
    → All IsDigit ds
    → All IsDigit es
    → IsTail tail
    → split_dots (version_text ds es tail) ≡ (text ds, text es ∷ (split_dots tail).1)
unfolding split_dots
split_dots-version ds es tail hd he ht =
    split_dots-text ds (46 ∷ (text es ++ tail)) hd
    ∙ ap (λ l. (l, (split_dots (text es ++ tail)).0 ∷ (split_dots (text es ++ tail)).1))
        (append-nil (text ds))
    ∙ ap (λ (s : Bytes × List Bytes). (text ds, s.0 ∷ s.1)) (split_dots-part es tail he ht)

parts_verdict-numbers :
    (first second : Bytes) (rest : List Bytes) (major minor : ℕ)
    → atoi first ≡ some (pos major)
    → atoi second ≡ some (pos minor)
    → parts_verdict (first, second ∷ rest) ≡ compared major minor
unfolding parts_verdict is_too_old
parts_verdict-numbers first second rest major minor h h' = ground (arith, h, h')

version_verdict-text :
    (d e : ℕ) (ds es : List ℕ) (tail : Bytes)
    → All IsDigit (d ∷ ds)
    → All IsDigit (e ∷ es)
    → IsTail tail
    → value_from 0 (d ∷ ds) ≤ int_max
    → value_from 0 (e ∷ es) ≤ int_max
    → version_verdict (version_text (d ∷ ds) (e ∷ es) tail)
      ≡ compared (value_from 0 (d ∷ ds)) (value_from 0 (e ∷ es))
unfolding version_verdict
version_verdict-text d e ds es tail hd he ht small small' =
    ap parts_verdict (split_dots-version (d ∷ ds) (e ∷ es) tail hd he ht)
    ∙ parts_verdict-numbers (text (d ∷ ds)) (text (e ∷ es)) (split_dots tail).1 _ _
        (atoi-text d ds hd small) (atoi-text e es he small')

fields-three :
    (a b c : ℕ) (us vs ws : Bytes)
    → All (λ c. is_space c ≡ false) (a ∷ us)
    → All (λ c. is_space c ≡ false) (b ∷ vs)
    → All (λ c. is_space c ≡ false) (c ∷ ws)
    → fields ((a ∷ us) ++ (32 ∷ ((b ∷ vs) ++ (32 ∷ ((c ∷ ws) ++ (10 ∷ []))))))
      ≡ (a ∷ us) ∷ (b ∷ vs) ∷ (c ∷ ws) ∷ []
unfolding is_space
fields-three a b c us vs ws ha hb hc =
    fields-word 32 a us _ refl ha
    ∙ ap (λ l. (a ∷ us) ∷ l) (fields-word 32 b vs _ refl hb)
    ∙ ap (λ l. (a ∷ us) ∷ (b ∷ vs) ∷ l) (fields-word 10 c ws [] refl hc)
    ∙ ap (λ l. (a ∷ us) ∷ (b ∷ vs) ∷ (c ∷ ws) ∷ l) fields_of_nothing

compared-recent :
    (major minor : ℕ)
    → (compared major minor ≡ recent) ↔ ((2 < major) ⊎ ((major ≡ 2) × (30 ≤ minor)))
compared-recent major minor = ground arith

-- Where git prints two words without a space and then its version, two decimal numbers that fit in 63 bits with nothing or a dot
-- and more after them, the check takes the version exactly where it is at least 2.30: the numbers are read as they are
-- printed and compared as a pair.
pub git_verdict-version :
    (a b d e : ℕ) (us vs ds es : List ℕ) (tail : Bytes)
    → All (λ c. is_space c ≡ false) (a ∷ us)
    → All (λ c. is_space c ≡ false) (b ∷ vs)
    → All IsDigit (d ∷ ds)
    → All IsDigit (e ∷ es)
    → IsTail tail
    → value_from 0 (d ∷ ds) ≤ int_max
    → value_from 0 (e ∷ es) ≤ int_max
    → let version = version_text (d ∷ ds) (e ∷ es) tail in
      let major = value_from 0 (d ∷ ds) in
      let minor = value_from 0 (e ∷ es) in
      (git_verdict true (some ((a ∷ us) ++ (32 ∷ ((b ∷ vs) ++ (32 ∷ (version ++ (10 ∷ [])))))))
        ≡ recent)
      ↔ ((2 < major) ⊎ ((major ≡ 2) × (30 ≤ minor)))
unfolding git_verdict output_verdict
git_verdict-version a b d e us vs ds es tail ha hb hd he ht small small' =
    rw verdict (compared-recent (value_from 0 (d ∷ ds)) (value_from 0 (e ∷ es)))
  where
    verdict :
        git_verdict true (
          some (
            (a ∷ us)
            ++ (32 ∷ ((b ∷ vs) ++ (32 ∷ (version_text (d ∷ ds) (e ∷ es) tail ++ (10 ∷ [])))))))
        ≡ compared (value_from 0 (d ∷ ds)) (value_from 0 (e ∷ es))
    verdict =
        ap output_verdict
          (fields-three a b (48 + d) us vs _ ha hb (version-plain (d ∷ ds) (e ∷ es) tail hd he ht))
        ∙ version_verdict-text d e ds es tail hd he ht small small'

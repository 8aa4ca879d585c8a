-- ===== src/Security/Secrets/Matches.antt =====
-- When the scanner of control-plane/internal/security/secretscan.go finds nothing.
use grid_token_util.Prelude.{◌≡◌, refl, List, [], ◌∷◌, ◌++◌, length, map, arith, All}
use grid_token_util.Security.{Bytes}
use grid_token_util.Security.Secrets.{Pattern, Finding, scan_patterns, finding}

abbrev pub FindsNothing : Bytes → Pattern → Type 0
FindsNothing text p = p.find_all text ≡ []

none_found :
    (p : Pattern) (ms : List Bytes) (rest : List Finding)
    → length (map (finding p) ms ++ rest) ≡ 0
    → (ms ≡ []) × (length rest ≡ 0)
none_found p [] rest h = (refl, h)
none_found p (m ∷ ms) rest h = ground arith

-- No finding means that no pattern occurs in the text, whatever its scope.
pub clean→All :
    (ps : List Pattern) (text : Bytes)
    → length (scan_patterns ps text) ≡ 0
    → All (FindsNothing text) ps
unfolding scan_patterns
clean→All [] text h = tt
clean→All (p ∷ ps) text h =
    let split = none_found p (p.find_all text) (scan_patterns ps text) h in
    (split.0, clean→All ps text split.1)

pub All→clean :
    (ps : List Pattern) (text : Bytes) → All (FindsNothing text) ps → scan_patterns ps text ≡ []
unfolding scan_patterns
All→clean [] text all = refl
All→clean (p ∷ ps) text all = rw all.0 (All→clean ps text all.1)

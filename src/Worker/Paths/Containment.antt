-- ===== src/Worker/Paths/Containment.antt =====
-- What the two containment tests accept.
use grid_token_util.Prelude.{
  suc, ◌≡◌, refl, ap, sym, ◌∙◌, ◌==◌, ◌↔◌, ◌⊎◌, inl, inr, true, false, not, ◌&&◌, ◌||◌, Bool-cases,
  and_true, ==_iff, subst, [], ◌∷◌, ◌++◌, leb, length, take, arith,
}
use grid_token_util.Security.{Bytes, bytes_eq}
use grid_token_util.Security.Keys.{bytes_eq_iff}
use grid_token_util.Worker.Paths.{slash, packs, has_prefix, ends_with_slash, assert_contained}

has_prefix_sound : (s t : Bytes) → has_prefix s t ≡ true → (rest : Bytes) × (s ≡ t ++ rest)
unfolding has_prefix
has_prefix_sound s [] h = (s, refl)
has_prefix_sound [] (b ∷ bs) h = cc
has_prefix_sound (a ∷ s) (b ∷ bs) h =
    let both = and_true (a == b) (has_prefix s bs) h in
    let (rest, e) = has_prefix_sound s bs both.1 in
    (rest, ap (λ x. x ∷ s) ((==_iff a b).0 both.0) ∙ ap (λ x. b ∷ x) e)

has_prefix-append : (t rest : Bytes) → has_prefix (t ++ rest) t ≡ true
unfolding has_prefix
has_prefix-append [] rest = refl
has_prefix-append (b ∷ bs) rest = ground (arith, has_prefix-append bs rest)

-- The slice that `Pack` compares: the test of its length and its contents is the one of a prefix.
taken :
    (w s : Bytes)
    → (not (leb (length s) (length w)) && bytes_eq (take (suc (length w)) s) (w ++ slash ∷ []))
      ≡ has_prefix s (w ++ slash ∷ [])
unfolding has_prefix bytes_eq
taken [] [] = refl
taken [] (c ∷ s) = ground arith
taken (b ∷ bs) [] = ground arith
taken (b ∷ bs) (a ∷ s) = ground (arith, taken bs s)

packs-has_prefix : (w s : Bytes) → packs w s ≡ (bytes_eq s w || has_prefix s (w ++ slash ∷ []))
unfolding packs
packs-has_prefix w s = ground (arith, taken w s)

append-slash : (w rest : Bytes) → (w ++ slash ∷ []) ++ rest ≡ w ++ slash ∷ rest
append-slash [] rest = refl
append-slash (b ∷ bs) rest = ap (λ x. b ∷ x) (append-slash bs rest)

-- Outside the root directory both tests accept the same paths: the workspace itself and what lies below it.
pub packs-assert_contained :
    (w s : Bytes) → ends_with_slash w ≡ false → packs w s ≡ assert_contained w s
unfolding assert_contained
packs-assert_contained w s h = ground (arith, packs-has_prefix w s, h)

-- `Pack` accepts exactly the workspace itself and the paths that continue it after a separator.
pub packs_iff :
    (w s : Bytes) → (packs w s ≡ true) ↔ ((s ≡ w) ⊎ ((rest : Bytes) × (s ≡ w ++ slash ∷ rest)))
packs_iff w s = (
  λ h. elim (Bool-cases (bytes_eq s w)) [
    | inl e ↦ inl ((bytes_eq_iff s w).0 e)
    | inr e ↦
        let (rest, p) =
          has_prefix_sound s (w ++ slash ∷ []) (ground (arith, packs-has_prefix w s, h, e)) in
        inr (rest, p ∙ append-slash w rest)
  ],
  λ o. elim o [
    | inl e ↦ ground (arith, packs-has_prefix w s, (bytes_eq_iff s w).1 e)
    | inr (rest, e) ↦ ground (
      arith,
      packs-has_prefix w s,
      subst (λ x. has_prefix x (w ++ slash ∷ []) ≡ true) (append-slash w rest ∙ sym e)
          (has_prefix-append (w ++ slash ∷ []) rest),
    )
  ],
)

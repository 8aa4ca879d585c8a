-- ===== src/Dashboard/Gather.antt =====
-- Goroutines that each write a part of a shared result under a mutex: control-plane/internal/dashboard/snapshot.go and
-- control-plane/internal/api/handlers/dashboard.go wait for all of them. An order in which they finish is a list of them.
use grid_token_util.Prelude.{◌≡◌, refl, ap, ◌∙◌, List, [], ◌∷◌}
use mathlib.Core.List.{Permᴰ}

module _ {P S : Type 0} (finish : P → S → S) where
  -- The shared result after the goroutines have finished in this order.
  unfoldable pub gather : List P → S → S
  gather [] s = s
  gather (p ∷ ps) s = gather ps (finish p s)

  -- Where the steps of any two goroutines commute, the order makes no difference.
  pub gather-perm :
      ((p q : P) (s : S) → finish q (finish p s) ≡ finish p (finish q s))
      → {ps qs : List P} → Permᴰ ps qs
      → (s : S) → gather ps s ≡ gather qs s
  unfolding gather
  gather-perm commute Permᴰ.nil s = refl
  gather-perm commute (Permᴰ.cons {b = b} {l₂ = l₂} e more) s =
      gather-perm commute more (finish _ s) ∙ ap (λ p. gather l₂ (finish p s)) e
  gather-perm commute (Permᴰ.swap {a = a} {b = b} {a' = c} {l = l} e f) s =
      ap (gather l) (commute a b s)
      ∙ ap (λ p. gather l (finish a (finish p s))) f
      ∙ ap (λ p. gather l (finish p (finish c s))) e
  gather-perm commute (Permᴰ.trans one two) s =
      gather-perm commute one s ∙ gather-perm commute two s

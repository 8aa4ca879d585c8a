-- ===== src/Security/Secrets/Redaction.antt =====
-- What `redact` of control-plane/internal/security/secretscan.go shows of a secret.
use mathlib.Core.List.{append_assoc}
use grid_token_util.Prelude.{
  length-append, length-take, length-drop, ℕ, ◌-◌, ◌≡◌, ◌≤◌, refl, sym, ap, ◌∙◌, [], ◌∷◌, ◌++◌,
  length, take, drop, arith, leb, Bool-cases, inl, inr, ◌<◌,
}
use grid_token_util.Security.{Bytes}
use grid_token_util.Security.Secrets.{redact, stars}

drop-++ : (s t : Bytes) → drop (length s) (s ++ t) ≡ t
drop-++ [] t = refl
drop-++ (x ∷ s) t = drop-++ s t

take-++ : (s t : Bytes) → take (length s) (s ++ t) ≡ s
take-++ [] t = refl
take-++ (x ∷ s) t = ap (λ r. x ∷ r) (take-++ s t)

take_first : (n : ℕ) (s t : Bytes) → length s ≡ n → take n (s ++ t) ≡ s
take_first n s t h = ap (λ k. take k (s ++ t)) (sym h) ∙ take-++ s t

drop_last : (n : ℕ) (s t : Bytes) → length t ≡ n → drop (length (s ++ t) - n) (s ++ t) ≡ t
drop_last n s t h = ap (λ k. drop k (s ++ t)) (length_left n s t h) ∙ drop-++ s t
  where
    length_left : (n : ℕ) (s t : Bytes) → length t ≡ n → length (s ++ t) - n ≡ length s
    length_left n s t h = ground (arith, length-append s t, h)

redact_long : (s : Bytes) → 6 < length s → redact s ≡ take 3 s ++ (stars ++ drop (length s - 3) s)
unfolding redact
redact_long s h = ground arith

-- The first three and the last three bytes of a secret of more than six bytes are shown, and none of those between.
pub redact_shape :
    (first middle last : Bytes)
    → length first ≡ 3
    → length last ≡ 3
    → 0 < length middle
    → redact (first ++ (middle ++ last)) ≡ first ++ (stars ++ last)
redact_shape first middle last h k m =
    redact_long s long
    ∙ ap (λ r. r ++ (stars ++ drop (length s - 3) s)) (take_first 3 first (middle ++ last) h)
    ∙ ap (λ r. first ++ (stars ++ r)) tail
  where
    s : Bytes
    s = first ++ (middle ++ last)

    long : 6 < length s
    long = ground (arith, length-append first (middle ++ last), length-append middle last, h, k, m)

    tail : drop (length s - 3) s ≡ last
    tail =
        ap (λ r. drop (length r - 3) r) (sym (append_assoc first middle last))
        ∙ drop_last 3 (first ++ middle) last k

-- What is shown of a secret is at most nine bytes long.
pub redact_bounded : (s : Bytes) → length (redact s) ≤ 9
unfolding redact
redact_bounded s = elim (Bool-cases (leb (length s) 6)) [
  | inl h ↦ rw h (ground arith)
  | inr h ↦ rw h (
      ground (
        arith,
        length-append (take 3 s) (stars ++ drop (length s - 3) s),
        length-append stars (drop (length s - 3) s),
        length-take 3 s,
        length-drop (length s - 3) s,
      ))
]

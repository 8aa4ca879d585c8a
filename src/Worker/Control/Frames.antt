-- ===== src/Worker/Control/Frames.antt =====
-- grid-worker/internal/control/server.go: the messages on the wire.
use grid_token_util.Prelude.{
  ℕ, zero, suc, ◌+◌, ◌*◌, ◌^◌, ◌≤◌, ◌<◌, ◌≡◌, ◌⊎◌, refl, inl, inr, some, [], ◌∷◌, ◌++◌, arith, take,
  drop, length, length-append, ap,
}
use grid_token_util.Worker.Control.{
  Bytes, put_u32, get_u32, read_full, frame, bad_length, no_length, message, max_message,
  read_message,
}

get_u32-put_u32 : (n : ℕ) (rest : Bytes) → n < 2 ^ 32 → get_u32 (put_u32 n ++ rest) ≡ some (n, rest)
unfolding get_u32 put_u32
get_u32-put_u32 n rest h = ap (λ k. some (k, rest)) (omega arith)

take-append : (xs ys : Bytes) → take (length xs) (xs ++ ys) ≡ xs
take-append [] ys = refl
take-append (x ∷ xs) ys = ap (λ l. x ∷ l) (take-append xs ys)

drop-append : (xs ys : Bytes) → drop (length xs) (xs ++ ys) ≡ ys
drop-append [] ys = refl
drop-append (x ∷ xs) ys = drop-append xs ys

read_full-append : (body rest : Bytes) → read_full (length body) (body ++ rest) ≡ some (body, rest)
unfolding read_full
read_full-append body rest =
    rw (take-append body rest, drop-append body rest) (ground (arith, length-append body rest))

append_assoc : (xs ys zs : Bytes) → (xs ++ ys) ++ zs ≡ xs ++ (ys ++ zs)
append_assoc [] ys zs = refl
append_assoc (x ∷ xs) ys zs = ap (λ l. x ∷ l) (append_assoc xs ys zs)

-- What a reader of a prefix and a body gets back.
pub get_u32-frame :
    (body rest : Bytes)
    → length body < 2 ^ 32
    → get_u32 (frame body ++ rest) ≡ some (length body, body ++ rest)
unfolding frame
get_u32-frame body rest h =
    rw
      (
        append_assoc (put_u32 (length body)) body rest,
        get_u32-put_u32 (length body) (body ++ rest) h,
      )
      refl

pub read_full-frame :
    (body rest : Bytes) → read_full (length body) (body ++ rest) ≡ some (body, rest)
read_full-frame = read_full-append

-- The server reads back the body that was framed, and the bytes after it, where its length is from 1 to 2^20.
pub read_message-frame :
    (body rest : Bytes)
    → 0 < length body
    → length body ≤ max_message
    → read_message (frame body ++ rest) ≡ message body rest
unfolding read_message
read_message-frame body rest lo hi =
    ground (arith, get_u32-frame body rest (omega arith), read_full-append body rest)

-- However few bytes of a message with a body above 2^20 bytes arrive, they are refused.
pub read_message-cut :
    (n : ℕ) (body : Bytes)
    → max_message < length body
    → length body < 2 ^ 32
    → (read_message (take n (frame body)) ≡ no_length)
      ⊎ (read_message (take n (frame body)) ≡ bad_length)
unfolding read_message frame put_u32 get_u32
read_message-cut zero body h k = inl refl
read_message-cut (suc zero) body h k = inl refl
read_message-cut (suc (suc zero)) body h k = inl refl
read_message-cut (suc (suc (suc zero))) body h k = inl refl
read_message-cut (suc (suc (suc (suc n)))) body h k =
    inr (ground (arith, get_u32-put_u32 (length body) (take n body) k))

length-drop : (n : ℕ) (bytes : Bytes) → n ≤ length bytes → length (drop n bytes) + n ≡ length bytes
length-drop zero bytes h = omega arith
length-drop (suc n) [] h = absurd (omega arith)
length-drop (suc n) (x ∷ bytes) h = omega (arith, length-drop n bytes (omega arith))

-- A message takes at least five bytes.
pub read_message-shorter :
    (bytes body left : Bytes)
    → read_message bytes ≡ message body left
    → length left + 5 ≤ length bytes
unfolding read_message read_full get_u32
read_message-shorter (a ∷ b ∷ c ∷ d ∷ rest) body left e =
    let n = a * 2 ^ 24 + b * 2 ^ 16 + c * 2 ^ 8 + d in grind (arith, length-drop n rest)
read_message-shorter [] body left e = cc
read_message-shorter (a ∷ []) body left e = cc
read_message-shorter (a ∷ b ∷ []) body left e = cc
read_message-shorter (a ∷ b ∷ c ∷ []) body left e = cc

pub length-frame : (body : Bytes) → length (frame body) ≡ length body + 4
unfolding frame put_u32
length-frame body = omega arith

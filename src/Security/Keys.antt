-- ===== src/Security/Keys.antt =====
-- The generation and the verification of keys in control-plane/internal/security/apikey.go agree.
use grid_token_util.Prelude.{
  ℕ, ◌+◌, ◌*◌, ◌/◌, ◌%◌, ◌<◌, ◌≡◌, refl, ap, sym, ◌∙◌, ◌==◌, ◌↔◌, true, false, some, [], ◌∷◌, ◌++◌,
  All, some-injective, arith,
}
use grid_token_util.Security.{
  Bytes, ArgonParams, default_argon_params, hex_digit, hex_value, encode_hex, decode_hex, separator,
  split_separator, parse_argon2id_hash, bytes_eq, hash_argon2id, verify_api_key,
  generate_api_key_with_params, key_prefix,
}

abbrev pub IsBytes : Bytes → Type 0
IsBytes bs = All (λ b. b < 256) bs

hex_value-hex_digit : (n : ℕ) → n < 16 → hex_value (hex_digit n) ≡ some n
hex_value-hex_digit n h = ground arith

nibbles : (b : ℕ) → b < 256 → (b / 16 < 16) × (b % 16 < 16) × ((b / 16) * 16 + b % 16 ≡ b)
nibbles b h = (omega arith, omega arith, omega arith)

-- Decoding what was encoded gives the bytes back.
pub decode_hex-encode_hex : (bs : Bytes) → IsBytes bs → decode_hex (encode_hex bs) ≡ some bs
unfolding decode_hex encode_hex
decode_hex-encode_hex [] h = refl
decode_hex-encode_hex (b ∷ bs) h =
    let (hi, lo, e) = nibbles b h.0 in
    rw (hex_value-hex_digit (b / 16) hi) (
      rw (hex_value-hex_digit (b % 16) lo)
        (rw (decode_hex-encode_hex bs h.1) (ap (λ x. some (x ∷ bs)) e)))

hex_digit-separator : (n : ℕ) → (hex_digit n == separator) ≡ false
hex_digit-separator n = ground arith

split_separator-encode_hex :
    (l r : Bytes) → split_separator (encode_hex l ++ separator ∷ r) ≡ some (encode_hex l, r)
unfolding split_separator encode_hex
split_separator-encode_hex [] r = refl
split_separator-encode_hex (b ∷ bs) r =
    rw (hex_digit-separator (b / 16))
      (rw (hex_digit-separator (b % 16)) (rw (split_separator-encode_hex bs r) refl))

-- The comparison of bytes is their equality.
pub bytes_eq_iff : (cs ds : Bytes) → (bytes_eq cs ds ≡ true) ↔ (cs ≡ ds)
unfolding bytes_eq
bytes_eq_iff [] [] = ground arith
bytes_eq_iff [] (b ∷ bs) = ground arith
bytes_eq_iff (a ∷ cs) [] = ground arith
bytes_eq_iff (a ∷ cs) (b ∷ bs) = ground (arith, bytes_eq_iff cs bs)

bytes_eq-encode_hex :
    (cs ds : Bytes)
    → IsBytes cs
    → IsBytes ds
    → (bytes_eq (encode_hex cs) (encode_hex ds) ≡ true) ↔ (cs ≡ ds)
bytes_eq-encode_hex cs ds h k =
    let e = bytes_eq_iff (encode_hex cs) (encode_hex ds) in
    (
      λ p.
          some-injective _ _
            (sym (decode_hex-encode_hex cs h) ∙ ap decode_hex (e.0 p) ∙ decode_hex-encode_hex ds k),
      λ p. e.1 (ap encode_hex p),
    )

-- A stored hash is split into the salt and the derived key that it was made of.
pub parse-hash_argon2id :
    (id_key : ArgonParams → Bytes → Bytes → Bytes) (p : ArgonParams) (salt plaintext : Bytes)
    → IsBytes salt
    → IsBytes (id_key p salt plaintext)
    → parse_argon2id_hash (hash_argon2id id_key p salt plaintext)
      ≡ some (salt, id_key p salt plaintext)
unfolding parse_argon2id_hash hash_argon2id
parse-hash_argon2id id_key p salt plaintext h k =
    rw (split_separator-encode_hex salt (encode_hex (id_key p salt plaintext)), parse_argon2id_hash)
      (rw (decode_hex-encode_hex salt h)
        (rw (decode_hex-encode_hex (id_key p salt plaintext) k) refl))

-- A generated key is accepted with its hash exactly when Argon2id gives the same for the parameters of the
-- generation as for the default ones: the verification knows no others. Argon2id returns bytes, and the salt
-- is of bytes.
pub verify-generate :
    (id_key : ArgonParams → Bytes → Bytes → Bytes) (p : ArgonParams) (b64 salt : Bytes)
    → IsBytes salt
    → ((q : ArgonParams) (s t : Bytes) → IsBytes (id_key q s t))
    → (verify_api_key id_key
          (generate_api_key_with_params id_key p b64 salt).0
          (generate_api_key_with_params id_key p b64 salt).2
        ≡ true)
      ↔ (id_key default_argon_params salt (key_prefix ++ b64) ≡ id_key p salt (key_prefix ++ b64))
unfolding verify_api_key generate_api_key_with_params
verify-generate id_key p b64 salt h k =
    rw
      (
        parse-hash_argon2id id_key p salt (key_prefix ++ b64) h (k p salt (key_prefix ++ b64)),
        verify_api_key,
      )
      (bytes_eq-encode_hex _ _ (k _ _ _) (k _ _ _))

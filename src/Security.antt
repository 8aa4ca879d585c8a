-- ===== src/Security.antt =====
-- control-plane/internal/security/apikey.go: the keys of the API. A text is the list of its bytes. Argon2id and
-- the random source are not part of the repository: `id_key` and the random bytes are arguments.
pub mod Keys
pub mod Secrets
use grid_token_util.Prelude.{
  ℕ, zero, suc, ◌+◌, ◌-◌, ◌*◌, ◌/◌, ◌%◌, ◌==◌, Bool, true, false, not, ◌&&◌, Option, none, some,
  List, [], ◌∷◌, ◌++◌, if◌then◌else◌, ltb, leb, take, length,
}

abbrev pub Bytes : Type 0
Bytes = List ℕ

pub record ArgonParams : Type 0 where
  pub memory : ℕ
  pub iterations : ℕ
  pub parallelism : ℕ
  pub salt_len : ℕ
  pub key_len : ℕ

abbrev pub default_argon_params : ArgonParams
default_argon_params = record {
  memory = 65536;
  iterations = 3;
  parallelism = 2;
  salt_len = 16;
  key_len = 32;
}

-- "gw_".
abbrev pub key_prefix : Bytes
key_prefix = 103 ∷ 119 ∷ 95 ∷ []

abbrev pub key_prefix_len : ℕ
key_prefix_len = 8

-- `hex.EncodeToString`.
abbrev pub hex_digit : ℕ → ℕ
hex_digit n = if ltb n 10 then 48 + n else 87 + n

unfoldable pub encode_hex : Bytes → Bytes
encode_hex [] = []
encode_hex (b ∷ bs) = hex_digit (b / 16) ∷ hex_digit (b % 16) ∷ encode_hex bs

-- `hex.DecodeString`.
abbrev pub hex_value : ℕ → Option ℕ
hex_value c =
    if leb 48 c && leb c 57
    then some (c - 48)
    else if leb 97 c && leb c 102
    then some (c - 87)
    else if leb 65 c && leb c 70
    then some (c - 55)
    else none

abbrev join : Option ℕ → Option ℕ → Option Bytes → Option Bytes
join (some h) (some l) (some bs) = some ((h * 16 + l) ∷ bs)
join _ _ _ = none

unfoldable pub decode_hex : Bytes → Option Bytes
decode_hex [] = some []
decode_hex (c ∷ []) = none
decode_hex (c ∷ d ∷ cs) = let rest = decode_hex cs in join (hex_value c) (hex_value d) rest

-- "$".
abbrev pub separator : ℕ
separator = 36

abbrev cons_left : ℕ → Option (Bytes × Bytes) → Option (Bytes × Bytes)
cons_left c none = none
cons_left c (some (l, r)) = some (c ∷ l, r)

unfoldable pub split_separator : Bytes → Option (Bytes × Bytes)
split_separator [] = none
split_separator (c ∷ cs) =
    let rest = split_separator cs in if c == separator then some ([], cs) else cons_left c rest

abbrev both : Option Bytes → Option Bytes → Option (Bytes × Bytes)
both (some s) (some d) = some (s, d)
both _ _ = none

unfoldable pub parse_argon2id_hash : Bytes → Option (Bytes × Bytes)
unfolding split_separator decode_hex
parse_argon2id_hash h = elim (split_separator h) [
  | none ↦ none
  | some (l, r) ↦ both (decode_hex l) (decode_hex r)
]

unfoldable pub bytes_eq : Bytes → Bytes → Bool
bytes_eq [] [] = true
bytes_eq (a ∷ cs) (b ∷ ds) = a == b && bytes_eq cs ds
bytes_eq _ _ = false

module _ (id_key : ArgonParams → Bytes → Bytes → Bytes) where
  unfoldable pub hash_argon2id : ArgonParams → Bytes → Bytes → Bytes
  unfolding encode_hex
  hash_argon2id p salt plaintext =
      encode_hex salt ++ separator ∷ encode_hex (id_key p salt plaintext)

  -- The plaintext, the prefix and the hash; `b64` is the text of the random bytes, which has 43 of them.
  unfoldable pub generate_api_key_with_params : ArgonParams → Bytes → Bytes → Bytes × Bytes × Bytes
  unfolding hash_argon2id
  generate_api_key_with_params p b64 salt = (
    key_prefix ++ b64,
    key_prefix ++ take key_prefix_len b64,
    hash_argon2id p salt (key_prefix ++ b64),
  )

  unfoldable pub verify_api_key : Bytes → Bytes → Bool
  unfolding parse_argon2id_hash encode_hex bytes_eq
  verify_api_key plaintext stored = elim (parse_argon2id_hash stored) [
    | none ↦ false
    | some (salt, dk) ↦
        bytes_eq (encode_hex (id_key default_argon_params salt plaintext)) (encode_hex dk)
  ]

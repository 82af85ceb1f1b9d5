-- ===== src/Astral/ObjectId.antt =====
-- ObjectID of astral/object_id.go: its binary form, its data1 and data0 strings and their parser.
pub mod Base32
pub mod Laws
use astral_go.Base.{
  ℕ, ◌-◌, ◌^◌, ◌<◌, ◌≡◌, Bool, true, false, ◌&&◌, ◌||◌, not, Option, none, some, ◌⊎◌, inl, inr,
  List, [], ◌∷◌, ◌++◌, length, take, drop, replicate, get_or, ltb, ◌==◌, if◌then◌else◌, str_eq,
  codes, IsBytes,
}
use astral_go.Wire.Out.{◌>>=◌, ◌>>◌, pure}
use astral_go.Wire.Stream.{Reader, Writer, read_full, write}
use astral_go.Astral.Fixed.{big_endian, from_big_endian, write_fixed, read_fixed}
use astral_go.Astral.ObjectId.Base32.{zbase32_char_set, encode, decode}

-- `Size uint64; Hash [32]byte`
pub record ObjectId : Type 0 where
  pub size : ℕ
  pub hash : List ℕ

-- What the Go type says of the two fields.
pub record IsId (id : ObjectId) : Type 0 where
  pub size_fits : id.size < 256 ^ 8
  pub hash_length : length id.hash ≡ 32
  pub hash_bytes : IsBytes id.hash

abbrev pub id_prefix : List ℕ
id_prefix = codes "data1"

abbrev pub partial_id_prefix : List ℕ
partial_id_prefix = codes "data0"

abbrev pub full_id_body_len : ℕ
full_id_body_len = 64

abbrev pub partial_id_body_len : ℕ
partial_id_body_len = 52

-- The digit 0, 'y'.
abbrev pub pad_char : ℕ
pad_char = get_or zbase32_char_set 0 0

pub data IdError : Type 0 where
  invalid_prefix invalid_length invalid_partial_length invalid_first_character : IdError
  invalid_data invalid_partial_size : IdError

unfoldable pub id_bytes : ObjectId → List ℕ
id_bytes id = big_endian 8 id.size ++ id.hash

unfoldable pub write_id : ObjectId → Writer
write_id id = write_fixed 8 id.size >> write id.hash

unfoldable pub read_id : Reader ObjectId
read_id =
    read_fixed 8 >>= λ size. read_full 32 >>= λ hash. pure (record { size = size; hash = hash })

-- strings.TrimLeft for one character.
unfoldable pub trim_left : ℕ → List ℕ → List ℕ
trim_left c [] = []
trim_left c (x ∷ xs) = let rest = trim_left c xs in if x == c then rest else x ∷ xs

unfoldable pub has_prefix : List ℕ → List ℕ → Bool
has_prefix [] s = true
has_prefix (c ∷ p) [] = false
has_prefix (c ∷ p) (x ∷ s) = (c == x) && has_prefix p s

unfoldable pub to_string : ObjectId → List ℕ
unfolding trim_left id_bytes
to_string id = id_prefix ++ trim_left pad_char (encode (id_bytes id))

unfoldable pub partial_string : ObjectId → List ℕ
partial_string id =
    partial_id_prefix
    ++ drop (full_id_body_len - partial_id_body_len) (encode (replicate 8 0 ++ id.hash))

-- An error of the decoder and a result of another length than 40 are not told apart.
unfoldable pub decode_id : List ℕ → ObjectId ⊎ IdError
decode_id encoded = elim (decode encoded) [
  | none ↦ inr invalid_data
  | some data_bytes ↦
      if length data_bytes == 40
      then inl (record { size = from_big_endian 0 (take 8 data_bytes); hash = drop 8 data_bytes })
      else inr invalid_data
]

unfoldable pub parse_full_id : List ℕ → ObjectId ⊎ IdError
unfolding decode_id
parse_full_id body =
    if ltb full_id_body_len (length body)
    then inr invalid_length
    else decode_id (replicate (full_id_body_len - length body) pad_char ++ body)

unfoldable pub partial_size : ObjectId ⊎ IdError → ObjectId ⊎ IdError
partial_size (inr e) = inr e
partial_size (inl id) = if id.size == 0 then inl id else inr invalid_partial_size

unfoldable pub parse_partial_id : List ℕ → ObjectId ⊎ IdError
unfolding decode_id partial_size
parse_partial_id body =
    if not (length body == partial_id_body_len)
    then inr invalid_partial_length
    else if not (get_or body 0 0 == pad_char)
        && not (get_or body 0 0 == get_or zbase32_char_set 1 0)
    then inr invalid_first_character
    else partial_size
        (decode_id (replicate (full_id_body_len - partial_id_body_len) pad_char ++ body))

unfoldable pub parse_id : List ℕ → ObjectId ⊎ IdError
unfolding has_prefix parse_full_id parse_partial_id
parse_id s =
    if has_prefix id_prefix s
    then parse_full_id (drop 5 s)
    else if has_prefix partial_id_prefix s
    then parse_partial_id (drop 5 s)
    else inr invalid_prefix

unfoldable pub is_equal : ObjectId → ObjectId → Bool
is_equal id other = if not (id.size == other.size) then false else str_eq id.hash other.hash

unfoldable pub all_zero : List ℕ → Bool
all_zero [] = true
all_zero (b ∷ bs) = if not (b == 0) then false else all_zero bs

-- A nil pointer counts as zero.
unfoldable pub is_zero : Option ObjectId → Bool
unfolding all_zero
is_zero none = true
is_zero (some id) = if not (id.size == 0) then false else all_zero id.hash

-- ===== src/Astral/Header.antt =====
-- Type headers: ObjectType (astral/object_type.go), Stamp (astral/stamp.go) and the type encoders
-- of astral/type_encoder.go.
pub mod Laws
use astral_go.Base.{
  ℕ, zero, suc, ◌≡◌, Bool, true, false, Option, none, some, List, [], ◌∷◌, ◌==◌, ltb, if◌then◌else◌,
  length, get_elem?, str_eq, ◌%◌, ◌+◌,
}
use astral_go.Wire.Out.{
  Error, ok, fail, empty_type, invalid_type, invalid_magic, ◌>>=◌, ◌>>◌, pure, raise,
}
use astral_go.Wire.Stream.{Reader, Writer}
use astral_go.Astral.Fixed.{write_fixed, read_fixed}
use astral_go.Astral.Sized.{w8, write_string, read_string}

unfoldable pub write_object_type : List ℕ → Writer
write_object_type t = write_string w8 t

unfoldable pub read_object_type : Reader (List ℕ)
read_object_type = read_string w8

abbrev pub magic : ℕ
magic = 0x41444330

unfoldable pub write_stamp : Writer
write_stamp = write_fixed 4 magic

-- The test on the value read stands behind the read's own error, and `m` is 0 where the read
-- failed: a short read is reported as invalid magic bytes.
unfoldable pub read_stamp : Reader (Unit {0})
read_stamp s = elim (read_fixed 4 s) [
  | ok m n s' ↦ if m == magic then ok tt n s' else fail invalid_magic n s'
  | fail e n s' ↦ fail invalid_magic n s'
]

unfoldable pub canonical_type_encoder : List ℕ → Writer
unfolding write_stamp write_object_type
canonical_type_encoder t =
    if length t == 0 then raise empty_type else (write_stamp >> write_object_type t)

unfoldable pub canonical_type_decoder : Reader (List ℕ)
unfolding read_stamp read_object_type
canonical_type_decoder = read_stamp >> read_object_type

unfoldable pub short_type_encoder : List ℕ → Writer
unfolding write_object_type
short_type_encoder t = if length t == 0 then raise empty_type else write_object_type t

unfoldable pub short_type_decoder : Reader (List ℕ)
unfolding read_object_type
short_type_decoder = read_object_type

-- The map from types to codes: a later occurrence of a type overwrites an earlier one, and the
-- index is cut to a Uint8.
unfoldable pub index_of : ℕ → List (List ℕ) → List ℕ → Option ℕ
index_of i [] t = none
index_of i (v ∷ types) t =
    let later = index_of (i + 1) types t in
    elim later [ some c ↦ some c | none ↦ if str_eq v t then some (i % 256) else none ]

unfoldable pub indexed_type_encoder : List (List ℕ) → List ℕ → Writer
unfolding index_of
indexed_type_encoder types t = elim (index_of 0 types t) [
  | none ↦ raise invalid_type
  | some code ↦ write_fixed 1 code
]

unfoldable pub indexed_type_decoder : List (List ℕ) → Reader (List ℕ)
indexed_type_decoder types = read_fixed 1 >>= λ code. elim (get_elem? types code) [
  | none ↦ raise invalid_type
  | some t ↦ pure t
]

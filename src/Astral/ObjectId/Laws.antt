-- ===== src/Astral/ObjectId/Laws.antt =====
-- ObjectID of astral/object_id.go read back from its binary form and from its strings.
use astral_go.Base.{
  ℕ, suc, ◌+◌, ◌-◌, ◌/◌, ◌<◌, ◌≡◌, refl, sym, ap, ◌∙◌, true, some, List, [], ◌∷◌, ◌++◌, length,
  get_or, take, drop, replicate, length-append, length-drop, take-append_length, drop-append_length,
  ltb, le→ltb, ◌==◌, ==_iff, str_eq_iff, str_eq_refl, ◌↔◌, All-append, IsByte, IsBytes, Bool-cases,
  inl, inr, ◌⊎◌, arith,
}
use astral_go.Wire.Stream.{read_full, write}
use astral_go.Wire.Reads.{Reads, Reads-bind, Reads-value, Reads-read_full}
use astral_go.Wire.Writes.{Writes, Writes-then, Writes-write}
use astral_go.Astral.Fixed.{big_endian, write_fixed, read_fixed}
use astral_go.Astral.Fixed.Laws.{
  length-big_endian, big_endian-IsBytes, from_big_endian-big_endian, Writes-write_fixed,
  Reads-read_fixed,
}
use astral_go.Astral.ObjectId.Base32.{char, to_digits, encode}
use astral_go.Astral.ObjectId.Base32.Laws.{decode-encode_bytes, length-encode}
use astral_go.Astral.ObjectId.{
  ObjectId, IsId, id_prefix, pad_char, IdError, id_bytes, write_id, read_id, trim_left, has_prefix,
  to_string, partial_string, decode_id, parse_full_id, partial_size, parse_partial_id, parse_id,
  is_equal, all_zero, is_zero,
}

length-id_bytes : (id : ObjectId) → IsId id → length (id_bytes id) ≡ 40
unfolding id_bytes
length-id_bytes id h = omega (
  arith,
  length-append (big_endian 8 id.size) id.hash,
  length-big_endian 8 id.size,
  h.hash_length,
)

id_bytes-IsBytes : (id : ObjectId) → IsId id → IsBytes (id_bytes id)
unfolding id_bytes
id_bytes-IsBytes id h =
    All-append IsByte (big_endian 8 id.size) id.hash (big_endian-IsBytes 8 id.size) h.hash_bytes

pub Writes-write_id : (id : ObjectId) → Writes 0 0 (write_id id) (id_bytes id)
unfolding write_id id_bytes
Writes-write_id id =
    Writes-then (write_fixed 8 id.size) (write id.hash) (Writes-write_fixed 8 id.size)
      (Writes-write 0 id.hash)

pub Reads-read_id : (id : ObjectId) → IsId id → Reads 0 0 read_id (id_bytes id) id
unfolding read_id id_bytes
Reads-read_id id h = Reads-bind (read_fixed 8) _ (Reads-read_fixed 8 id.size h.size_fits) (
    Reads-value (read_full 32) (λ hash. record { size = id.size; hash = hash })
      (Reads-read_full id.hash 32 h.hash_length))

-- What TrimLeft takes off is put back by as many pad characters.
pad-trim_left :
    (c : ℕ) (xs : List ℕ)
    → (k : ℕ) × (k + length (trim_left c xs) ≡ length xs) × (replicate k c ++ trim_left c xs ≡ xs)
unfolding trim_left
pad-trim_left c [] = (0, refl, refl)
pad-trim_left c (x ∷ xs) = elim (Bool-cases (x == c)) [
  | inl e ↦
      let (k, l, p) = pad-trim_left c xs in
      rw (e, trim_left)
        (
          suc k,
          omega (arith, l),
          ap (λ y. y ∷ (replicate k c ++ trim_left c xs)) (sym ((==_iff x c).0 e))
              ∙ ap (λ ys. x ∷ ys) p,
        )
  | inr e ↦ rw (e, trim_left) (0, omega arith, refl)
]

decode_id-id_bytes : (id : ObjectId) → IsId id → decode_id (encode (id_bytes id)) ≡ inl id
unfolding decode_id
decode_id-id_bytes id h =
    let decoded =
      decode-encode_bytes 8 (id_bytes id) (id_bytes-IsBytes id h) (length-id_bytes id h) in
    let len = length-big_endian 8 id.size in
    let front : take 8 (id_bytes id) ≡ big_endian 8 id.size =
      unfold id_bytes in take-append_length (big_endian 8 id.size) id.hash 8 (sym len) in
    let back : drop 8 (id_bytes id) ≡ id.hash =
      unfold id_bytes in drop-append_length (big_endian 8 id.size) id.hash 8 (sym len) in
    rw (decoded, decode_id)
      (ground (
        arith,
        length-id_bytes id h,
        front,
        back,
        from_big_endian-big_endian 8 id.size h.size_fits,
      ))

parse_full_id-trimmed :
    (xs : List ℕ) → length xs ≡ 64 → parse_full_id (trim_left pad_char xs) ≡ decode_id xs
unfolding parse_full_id
parse_full_id-trimmed xs h =
    let (k, l, p) = pad-trim_left pad_char xs in
    let pads : 64 - length (trim_left pad_char xs) ≡ k = omega arith in
    rw (le→ltb 64 (length (trim_left pad_char xs)) (omega arith), pads, p) refl

-- ParseID returns the id that String was called on, for every id of a 64-bit size and 32 hash
-- bytes.
pub parse_id-to_string : (id : ObjectId) → IsId id → parse_id (to_string id) ≡ inl id
unfolding parse_id to_string has_prefix
parse_id-to_string id h =
    parse_full_id-trimmed (encode (id_bytes id))
      (length-encode 8 (id_bytes id) (length-id_bytes id h))
    ∙ decode_id-id_bytes id h

same_id : {x y : ObjectId} → ◌≡◌ {A = ObjectId ⊎ IdError} (inl x) (inl y) → x ≡ y
same_id h = cc

pub to_string_injective : (a b : ObjectId) → IsId a → IsId b → to_string a ≡ to_string b → a ≡ b
to_string_injective a b ha hb e =
    same_id (sym (parse_id-to_string a ha) ∙ ap parse_id e ∙ parse_id-to_string b hb)

abbrev zero_size : ObjectId → ObjectId
zero_size id = record { size = 0; hash = id.hash }

zero_size-IsId : (id : ObjectId) → IsId id → IsId (zero_size id)
zero_size-IsId id h = record {
  size_fits = omega arith;
  hash_length = h.hash_length;
  hash_bytes = h.hash_bytes;
}

-- The first bit of the hash, behind twelve digits 0 and the four last bits of the size.
first_digit : (h : ℕ) → h < 256 → (char (0 + h / 128) ≡ char 0) ⊎ (char (0 + h / 128) ≡ char 1)
first_digit h b = elim (Bool-cases (ltb h 128)) [
  | inl e ↦ let q : 0 + h / 128 ≡ 0 = ground (arith, e) in inl (ap char q)
  | inr e ↦ let q : 0 + h / 128 ≡ 1 = ground (arith, e) in inr (ap char q)
]

partial_body :
    (hash : List ℕ)
    → length hash ≡ 32
    → IsBytes hash
    → let enc = encode (replicate 8 0 ++ hash) in
      (replicate 12 pad_char ++ drop 12 enc ≡ enc)
      × ((get_or (drop 12 enc) 0 0 ≡ char 0) ⊎ (get_or (drop 12 enc) 0 0 ≡ char 1))
unfolding encode to_digits char
partial_body [] l h = absurd (omega arith)
partial_body (a ∷ []) l h = absurd (omega arith)
partial_body (a ∷ b ∷ rest) l h = (refl, first_digit a h.0)

parse_partial_id-body :
    (body : List ℕ) (id : ObjectId)
    → length body ≡ 52
    → (get_or body 0 0 ≡ char 0) ⊎ (get_or body 0 0 ≡ char 1)
    → decode_id (replicate 12 pad_char ++ body) ≡ inl id
    → id.size ≡ 0
    → parse_partial_id body ≡ inl id
unfolding parse_partial_id partial_size char
parse_partial_id-body body id l (inl c) d z = rw (l, c, d, z) refl
parse_partial_id-body body id l (inr c) d z = rw (l, c, d, z) refl

id_bytes-zero_size : (id : ObjectId) → id_bytes (zero_size id) ≡ replicate 8 0 ++ id.hash
unfolding id_bytes big_endian
id_bytes-zero_size id = refl

-- ParseID of what PartialString returns for an id of a 64-bit size and 32 hash bytes is the id with
-- Size 0.
pub parse_id-partial_string :
    (id : ObjectId)
    → IsId id
    → parse_id (partial_string id) ≡ inl (record { size = 0; hash = id.hash })
unfolding parse_id partial_string has_prefix
parse_id-partial_string id h =
    let enc = encode (replicate 8 0 ++ id.hash) in
    let (whole, first) = partial_body id.hash h.hash_length h.hash_bytes in
    let len : length enc ≡ 64 =
      length-encode 8 (replicate 8 0 ++ id.hash) (omega (arith, h.hash_length)) in
    let decoded : decode_id enc ≡ inl (zero_size id) =
      ap (λ b. decode_id (encode b)) (sym (id_bytes-zero_size id))
      ∙ decode_id-id_bytes (zero_size id) (zero_size-IsId id h) in
    parse_partial_id-body (drop 12 enc) (zero_size id) (omega (arith, length-drop 12 enc, len))
      first (ap decode_id whole ∙ decoded) refl

id_ext : (a b : ObjectId) → a.size ≡ b.size → a.hash ≡ b.hash → a ≡ b
id_ext a b p q = λ j. record { size = p j; hash = q j }

-- IsEqual tells equality.
pub is_equal_iff : (id other : ObjectId) → (is_equal id other ≡ true) ↔ (id ≡ other)
unfolding is_equal
is_equal_iff id other = (
  λ e. id_ext id other (ground (arith, e)) (ground (arith, e, str_eq_iff id.hash other.hash)),
  λ e. rw e (ground (arith, str_eq_refl other.hash)),
)

all_zero-replicate : (bs : List ℕ) → all_zero bs ≡ true → bs ≡ replicate (length bs) 0
unfolding all_zero
all_zero-replicate [] h = refl
all_zero-replicate (b ∷ bs) h = ground (arith, h, all_zero-replicate bs)

zero_string : to_string (record { size = 0; hash = replicate 32 0 }) ≡ id_prefix
unfolding to_string id_bytes big_endian encode to_digits char trim_left
zero_string = refl

-- The only id that IsZero accepts, besides nil, has Size 0 and 32 zero bytes, and String renders it
-- as the bare prefix.
pub is_zero-to_string :
    (id : ObjectId)
    → IsId id
    → is_zero (some id) ≡ true
    → (id ≡ record { size = 0; hash = replicate 32 0 }) × (to_string id ≡ id_prefix)
unfolding is_zero
is_zero-to_string id i z =
    let zeros : id.hash ≡ replicate 32 0 =
      all_zero-replicate id.hash (ground (arith, z)) ∙ ap (λ n. replicate n 0) i.hash_length in
    let same = id_ext id (record { size = 0; hash = replicate 32 0 }) (ground (arith, z)) zeros in
    (same, ap to_string same ∙ zero_string)

-- ===== src/Astral/Header/Laws.antt =====
-- Theorems on the type headers of astral/type_encoder.go, astral/object_type.go and astral/stamp.go.
use astral_go.Base.{
  ℕ, suc, ◌+◌, ◌≤◌, ◌<◌, ◌≡◌, refl, false, none, some, List, [], ◌∷◌, ◌++◌, append-nil, ◌==◌,
  length, get_elem?, str_eq, str_eq_iff, arith, Bool-cases, Option-cases, inl, inr,
}
use astral_go.Wire.Out.{invalid_type, pure, raise}
use astral_go.Wire.Reads.{Reads, Reads-bind, Reads-pure}
use astral_go.Wire.Writes.{Writes, Writes-then}
use astral_go.Astral.Fixed.{big_endian, read_fixed}
use astral_go.Astral.Fixed.Laws.{Writes-write_fixed, Reads-read_fixed}
use astral_go.Astral.Sized.{w8, write_string}
use astral_go.Astral.Sized.Laws.{sized, Fits, Writes-write_sized, Reads-read_string}
use astral_go.Astral.Header.{
  magic, write_object_type, read_object_type, read_stamp, canonical_type_encoder,
  canonical_type_decoder, short_type_encoder, short_type_decoder, index_of, indexed_type_encoder,
  indexed_type_decoder,
}

pub Writes-write_object_type :
    (t : List ℕ) → Fits w8 t → Writes 0 0 (write_object_type t) (sized w8 t)
unfolding write_object_type write_string
Writes-write_object_type t h = Writes-write_sized w8 t h

pub Reads-read_object_type : (t : List ℕ) → Fits w8 t → Reads 0 0 read_object_type (sized w8 t) t
unfolding read_object_type
Reads-read_object_type t h = Reads-read_string w8 t h

abbrev pub stamp_bytes : List ℕ
stamp_bytes = big_endian 4 magic

pub Reads-read_stamp : Reads 0 0 read_stamp stamp_bytes tt
unfolding read_stamp
Reads-read_stamp = record {
  at = λ rest L h. rw ((Reads-read_fixed 4 magic (omega arith)).at rest L h, read_stamp) refl;
}

abbrev IsNonempty : List ℕ → Type 0
IsNonempty t = 0 < length t

nonempty_test : (t : List ℕ) → IsNonempty t → (length t == 0) ≡ false
nonempty_test t h = ground arith

pub canonical_header :
    (t : List ℕ)
    → IsNonempty t
    → Fits w8 t
    → Writes 0 0 (canonical_type_encoder t) (stamp_bytes ++ sized w8 t)
      × Reads 0 0 canonical_type_decoder (stamp_bytes ++ sized w8 t) t
canonical_header t ne h = (writes, reads)
  where
    writes : Writes 0 0 (canonical_type_encoder t) (stamp_bytes ++ sized w8 t)
    writes =
        unfold canonical_type_encoder in
        rw (nonempty_test t ne)
          (Writes-then _ _ (Writes-write_fixed 4 magic) (Writes-write_object_type t h))

    reads : Reads 0 0 canonical_type_decoder (stamp_bytes ++ sized w8 t) t
    reads =
        unfold canonical_type_decoder in
        Reads-bind read_stamp (λ _. read_object_type) Reads-read_stamp (Reads-read_object_type t h)

pub short_header :
    (t : List ℕ)
    → IsNonempty t
    → Fits w8 t
    → Writes 0 0 (short_type_encoder t) (sized w8 t) × Reads 0 0 short_type_decoder (sized w8 t) t
short_header t ne h = (
  unfold short_type_encoder in rw (nonempty_test t ne) (Writes-write_object_type t h),
  unfold short_type_decoder in Reads-read_object_type t h,
)

-- The code of a type in a table of at most 256 types leads back to the type.
index_of-get_elem? :
    (i : ℕ) (types : List (List ℕ)) (t : List ℕ) (c : ℕ)
    → i + length types ≤ 256
    → index_of i types t ≡ some c
    → (k : ℕ) × (c ≡ i + k) × (k < length types) × (get_elem? types k ≡ some t)
unfolding index_of
index_of-get_elem? i [] t c h e = cc
index_of-get_elem? i (v ∷ types) t c h e = elim (Option-cases (index_of (i + 1) types t)) [
  | inr (c', later) ↦
      let (k, p, q, r) = index_of-get_elem? (i + 1) types t c' (omega arith) later in
      (suc k, ground arith, omega arith, r)
  | inl last ↦ elim (Bool-cases (str_eq v t)) [
    | inl same ↦ (0, ground arith, omega arith, ground (arith, str_eq_iff v t))
    | inr other ↦ ground arith
  ]
]

pub indexed_header :
    (types : List (List ℕ)) (t : List ℕ) (c : ℕ)
    → length types ≤ 256
    → index_of 0 types t ≡ some c
    → Writes 0 0 (indexed_type_encoder types t) (big_endian 1 c)
      × Reads 0 0 (indexed_type_decoder types) (big_endian 1 c) t
indexed_header types t c h e =
    (unfold indexed_type_encoder in rw (e, indexed_type_encoder) (Writes-write_fixed 1 c), reads)
  where
    reads : Reads 0 0 (indexed_type_decoder types) (big_endian 1 c) t
    reads =
        let (k, p, q, r) = index_of-get_elem? 0 types t c (omega arith) e in
        let same : c ≡ k = omega arith in
        let found : get_elem? types c ≡ some t = rw same r in
        let last : Reads 0 0
            (elim (get_elem? types c) [ none ↦ raise invalid_type | some u ↦ pure u ]) [] t =
          rw found (Reads-pure 0 t) in
        unfold indexed_type_decoder in
        rw append-nil at (
          Reads-bind (read_fixed 1)
            (λ code. elim (get_elem? types code) [ none ↦ raise invalid_type | some u ↦ pure u ])
            (Reads-read_fixed 1 c (omega arith)) last)

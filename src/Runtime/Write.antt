-- ===== src/Runtime/Write.antt =====
-- WriteTo of runtime values: RuntimeObject.WriteTo and writeField (astral/runtime_object.go), and
-- the container codecs sliceValue, arrayValue and mapValue with ptrValue and interfaceValue in
-- their slots (astral/slice_value.go, array_value.go, map_value.go, ptr_value.go,
-- interface_value.go), as RuntimeSlice, RuntimeArray and RuntimeMap call them.
use astral_go.Base.{
  bytes_before, ℕ, ◌+◌, ◌%◌, ◌^◌, ◌⊎◌, inl, inr, Bool, true, false, none, List, [], ◌∷◌, length,
  ◌==◌, if◌then◌else◌, codes, str_eq,
}
use astral_go.Wire.Out.{Out, ok, fail, empty_type, nil_value, ◌>>◌, pure, raise, Error}
use astral_go.Wire.Stream.{Sink, Writer, write, framed_write, attach_writer}
use astral_go.Wire.Writes.{sink}
use astral_go.Astral.Fixed.{big_endian, write_fixed}
use astral_go.Astral.Sized.{w8, w16, write_string}
use astral_go.Astral.Header.{write_object_type, short_type_encoder}
use astral_go.Blueprints.Spec.{
  Spec, primitive_spec, ref_spec, slice_spec, array_spec, map_spec, ptr_spec, object_spec, Field,
}
use astral_go.Runtime.Value.{
  Prototypes, Key, text, number, Value, absent, nil_marker, compiled, struct_object, alias_object,
  runtime_slice, runtime_array, runtime_map, Values, end, more, Pairs, no_pairs, pair, count,
  type_of,
}

abbrev pub non_nil : {A : Type 0} → Value A → Writer → Writer
non_nil absent w = raise nil_value
non_nil v w = w

-- isPtrNil, without the typed nil pointers.
unfoldable pub is_ptr_nil : {A : Type 0} → Value A → Bool
is_ptr_nil absent = true
is_ptr_nil nil_marker = true
is_ptr_nil v = false

-- The bytes that a writer puts into an empty bytes.Buffer.
abbrev pub buffered : Out Sink (Unit {0}) → Error ⊎ List ℕ
buffered (ok a n s) = inr s.output
buffered (fail e n s) = inl e

-- The width of a key in bytes, by the name of its type; 0 for a string.
unfoldable pub key_width : List ℕ → ℕ
key_width k =
    if str_eq k (codes "uint8")
    then 1
    else if str_eq k (codes "uint16")
    then 2
    else if str_eq k (codes "uint32")
    then 4
    else if str_eq k (codes "uint64")
    then 8
    else 0

unfoldable pub write_map_key : List ℕ → Key → Writer
write_map_key k (text s) = write_string w16 s
write_map_key k (number n) = write (big_endian (key_width k) n)

abbrev pub Encoded : Type 0
Encoded = List ℕ × List ℕ

-- sort.Slice on the encoded keys, which differ.
unfoldable pub insert_pair : Encoded → List Encoded → List Encoded
insert_pair p [] = p ∷ []
insert_pair p (q ∷ qs) =
    let rest = insert_pair p qs in if bytes_before q.0 p.0 then q ∷ rest else p ∷ q ∷ qs

unfoldable pub sort_pairs : List Encoded → List Encoded
unfolding insert_pair
sort_pairs [] = []
sort_pairs (p ∷ ps) = insert_pair p (sort_pairs ps)

unfoldable pub write_encoded : List Encoded → Writer
write_encoded [] = pure tt
write_encoded ((k, v) ∷ ps) = (write k >> write v) >> write_encoded ps

module _ (P : Prototypes) where
  -- `w` is the WriteTo of the value.
  unfoldable pub write_field : Spec → Value P.Object → Writer → Writer
  unfolding is_ptr_nil type_of
  write_field (primitive_spec p) v w = non_nil v w
  write_field (ref_spec t) v w = non_nil v w
  write_field (slice_spec t) v w = non_nil v w
  write_field (array_spec t n) v w = non_nil v w
  write_field (map_spec k t) v w = non_nil v w
  write_field (ptr_spec t) v w = if is_ptr_nil v then write_fixed 1 0 else (write_fixed 1 1 >> w)
  write_field object_spec absent w = raise nil_value
  write_field object_spec v w =
      if is_ptr_nil v
      then write_object_type []
      else attach_writer (short_type_encoder (type_of P.object_type v) >> w)

  -- objectify of what a slot's pointer points to.
  unfoldable pub write_elem : Value P.Object → Writer → Writer
  write_elem (compiled o) w = P.elem_write_to o
  write_elem v w = w

  -- ptrValue.WriteTo, for the slots of a homogeneous container.
  unfoldable pub write_pointer : Value P.Object → Writer → Writer
  unfolding write_elem
  write_pointer absent w = framed_write (write_fixed 1 0)
  write_pointer v w = framed_write (write_fixed 1 1 >> write_elem v w)

  -- interfaceValue.WriteTo, for the slots of a heterogeneous one; ptrValue without its flag is a
  -- frame of its own.
  unfoldable pub write_interface : Value P.Object → Writer → Writer
  unfolding is_ptr_nil type_of write_elem
  write_interface v w = framed_write (
      if is_ptr_nil v
      then write_fixed 1 0
      else if length (type_of P.object_type v) == 0
      then raise empty_type
      else (write_string w8 (type_of P.object_type v) >> framed_write (write_elem v w)))

  unfoldable pub write_slot : List ℕ → Value P.Object → Writer → Writer
  unfolding write_pointer write_interface
  write_slot name v w = if length name == 0 then write_interface v w else write_pointer v w

  -- The value that a slot of a map writes into its own buffer, behind the key.
  abbrev encode_pair : List ℕ → Key → Writer → Error ⊎ Encoded
  encode_pair k key w = elim (buffered (write_map_key k key (sink [] none))) [
    | inl e ↦ inl e
    | inr kb ↦ elim (buffered (w (sink [] none))) [ inl e ↦ inl e | inr vb ↦ inr (kb, vb) ]
  ]

  unfoldable pub pair_count : {A : Type 0} → Pairs A → ℕ
  pair_count no_pairs = 0
  pair_count (pair k v ps) = pair_count ps + 1

  -- The Go nil has no WriteTo; a field or a slot with it does not call one.
  unfoldable mutual
    unfolding write_field write_slot framed_write sort_pairs pair_count

    pub write_value : Value P.Object → Writer
    write_value absent = raise nil_value
    write_value nil_marker = pure tt
    write_value (compiled o) = P.write_to o
    write_value (struct_object bp vs) = framed_write (write_fields bp.fields vs)
    write_value (alias_object bp v) = write_value v
    write_value (runtime_slice name vs) =
        framed_write (write_fixed 4 (count vs % 2 ^ 32) >> write_slots name vs)
    write_value (runtime_array name vs) = framed_write (write_slots name vs)
    write_value (runtime_map k name ps) = framed_write (
        write_fixed 4 (pair_count ps % 2 ^ 32) >> elim (encode_pairs k name ps) [
          | inl e ↦ raise e
          | inr encoded ↦ write_encoded (sort_pairs encoded)
        ])

    -- A RuntimeObject has as many values as its Blueprint has fields.
    pub write_fields : List Field → Values P.Object → Writer
    write_fields [] vs = pure tt
    write_fields (f ∷ fs) end = raise nil_value
    write_fields (f ∷ fs) (more v vs) = write_field f.spec v (write_value v) >> write_fields fs vs

    pub write_slots : List ℕ → Values P.Object → Writer
    write_slots name end = pure tt
    write_slots name (more v vs) = write_slot name v (write_value v) >> write_slots name vs

    pub encode_pairs : List ℕ → List ℕ → Pairs P.Object → Error ⊎ List Encoded
    encode_pairs k name no_pairs = inr []
    encode_pairs k name (pair key v ps) =
        elim (encode_pair k key (write_slot name v (write_value v))) [
          | inl e ↦ inl e
          | inr p ↦ elim (encode_pairs k name ps) [ inl e ↦ inl e | inr rest ↦ inr (p ∷ rest) ]
        ]

-- ===== src/Runtime/Read.antt =====
-- ReadFrom of runtime values: RuntimeObject.ReadFrom, readField and readPolymorphic
-- (astral/runtime_object.go), RuntimeSlice, RuntimeArray and RuntimeMap with the paths of
-- astral/runtime_blueprint_codec.go, and the container codecs with ptrValue and interfaceValue in
-- their slots. `chain` is the registry that the reader resolves names in.
use astral_go.Base.{
  ℕ, zero, suc, Bool, false, ◌||◌, none, some, List, [], ◌∷◌, length, ◌==◌, if◌then◌else◌, codes,
  str_eq,
}
use astral_go.Wire.Out.{
  depth_exceeded, blueprint_not_found, stream_corrupted, invalid_flag, invalid_key, nil_value,
  ◌>>=◌, pure, raise,
}
use astral_go.Wire.Stream.{Reader, framed_read}
use astral_go.Astral.Fixed.{read_fixed}
use astral_go.Astral.Sized.{w8, w16, read_string}
use astral_go.Astral.Header.{read_object_type}
use astral_go.Blueprints.Spec.{
  Spec, primitive_spec, ref_spec, slice_spec, array_spec, map_spec, ptr_spec, object_spec, Field,
  is_allowed_map_key,
}
use astral_go.Blueprints.Registry.{Chain, is_runtime_blueprint_type}
use astral_go.Runtime.Value.{
  Prototypes, Key, text, number, Value, absent, nil_marker, compiled, struct_object, alias_object,
  runtime_slice, runtime_array, runtime_map, Values, end, more, Pairs, no_pairs, pair,
}
use astral_go.Runtime.Construct.{resolve_elem_type, new}
use astral_go.Runtime.Write.{key_width}

unfoldable pub same_key : Key → Key → Bool
same_key (text s) (text t) = str_eq s t
same_key (number m) (number n) = m == n
same_key _ _ = false

-- SetMapIndex
unfoldable pub set_map_index : {A : Type 0} → Key → Value A → Pairs A → Pairs A
unfolding same_key
set_map_index key v no_pairs = pair key v no_pairs
set_map_index key v (pair k u ps) =
    let rest = set_map_index key v ps in if same_key key k then pair k v ps else pair k u rest

unfoldable pub read_map_key : List ℕ → Reader Key
read_map_key k =
    if key_width k == 0
    then (read_string w16 >>= λ s. pure (text s))
    else (read_fixed (key_width k) >>= λ n. pure (number n))

abbrev pub is_nil_name : List ℕ → Bool
is_nil_name t = (length t == 0) || str_eq t (codes "nil")

module _ (P : Prototypes) where
  -- `read_from` is the ReadFrom of an object that New returned.
  module _ (read_from : Value P.Object → Reader (Value P.Object)) (chain : Chain P.Object) where
    -- `bps.New(name)` and its ReadFrom.
    unfoldable pub read_new : List ℕ → Reader (Value P.Object)
    read_new name = elim (new P.fresh chain name) [
      | none ↦ raise blueprint_not_found
      | some v ↦ read_from v
    ]

    -- An unknown type in a polymorphic slot corrupts the stream.
    unfoldable pub read_tagged : List ℕ → Reader (Value P.Object)
    read_tagged t = elim (new P.fresh chain t) [
      | none ↦ raise stream_corrupted
      | some v ↦ read_from v
    ]

    unfoldable pub read_polymorphic : Reader (Value P.Object)
    unfolding read_tagged
    read_polymorphic =
        read_object_type >>= λ t. if is_nil_name t then pure nil_marker else read_tagged t

    -- readRuntimeBlueprintPtr and readRuntimeBlueprintMapValue: a value that is no RuntimeObject
    -- fails as an unknown one.
    abbrev pub runtime_object : Value P.Object → Reader (Value P.Object)
    runtime_object (struct_object bp vs) = read_from (struct_object bp vs)
    runtime_object (alias_object bp v) = read_from (alias_object bp v)
    runtime_object _ = raise blueprint_not_found

    unfoldable pub read_runtime_ptr : List ℕ → Reader (Value P.Object)
    read_runtime_ptr name = read_fixed 1 >>= λ flag.
        if flag == 0
        then pure absent
        else if flag == 1
        then elim (new P.fresh chain name) [
          | none ↦ raise blueprint_not_found
          | some v ↦ runtime_object v
        ]
        else raise invalid_flag

    -- The destination of a pointer slot is a new object of the element type.
    abbrev pub elem_object : Value P.Object → Reader (Value P.Object)
    elem_object (compiled o) = P.elem_read_from o >>= λ o'. pure (compiled o')
    elem_object v = read_from v

    unfoldable pub read_pointer : List ℕ → Reader (Value P.Object)
    read_pointer name = framed_read (
        read_fixed 1 >>= λ flag.
        if flag == 0
        then pure absent
        else if flag == 1
        then elim (new P.fresh chain name) [
          | none ↦ raise blueprint_not_found
          | some v ↦ elem_object v
        ]
        else raise invalid_flag)

    unfoldable pub read_interface : Reader (Value P.Object)
    unfolding read_tagged
    read_interface =
        framed_read (read_string w8 >>= λ t. if is_nil_name t then pure absent else read_tagged t)

    unfoldable pub read_slot : List ℕ → Reader (Value P.Object)
    unfolding read_pointer read_interface
    read_slot name = if length name == 0 then read_interface else read_pointer name

    unfoldable pub read_slots : Reader (Value P.Object) → ℕ → Reader (Values P.Object)
    read_slots slot zero = pure end
    read_slots slot (suc l) = slot >>= λ v. read_slots slot l >>= λ vs. pure (more v vs)

    -- The elements: RuntimeObjects are read without the frames of the container and its slots.
    unfoldable pub read_slice : List ℕ → Reader (Values P.Object)
    unfolding read_runtime_ptr read_slot read_slots
    read_slice name =
        if is_runtime_blueprint_type chain name
        then (read_fixed 4 >>= read_slots (read_runtime_ptr name))
        else framed_read (read_fixed 4 >>= read_slots (read_slot name))

    unfoldable pub read_array : List ℕ → ℕ → Reader (Values P.Object)
    unfolding read_runtime_ptr read_slot read_slots
    read_array name n =
        if is_runtime_blueprint_type chain name
        then read_slots (read_runtime_ptr name) n
        else framed_read (read_slots (read_slot name) n)

    unfoldable pub read_pairs :
        List ℕ → Reader (Value P.Object) → ℕ → Pairs P.Object → Reader (Pairs P.Object)
    unfolding read_map_key set_map_index
    read_pairs k slot zero ps = pure ps
    read_pairs k slot (suc l) ps =
        read_map_key k >>= λ key. slot >>= λ v. read_pairs k slot l (set_map_index key v ps)

    unfoldable pub read_map : List ℕ → List ℕ → Reader (Pairs P.Object)
    unfolding read_runtime_ptr read_slot read_pairs
    read_map k name =
        if is_runtime_blueprint_type chain name
        then (read_fixed 4 >>= λ l. read_pairs k (read_runtime_ptr name) l no_pairs)
        else framed_read (read_fixed 4 >>= λ l. read_pairs k (read_slot name) l no_pairs)

    unfoldable pub read_ptr : List ℕ → Reader (Value P.Object)
    unfolding read_new
    read_ptr t = read_fixed 1 >>= λ flag.
        if flag == 0 then pure nil_marker else if flag == 1 then read_new t else raise invalid_flag

    unfoldable pub read_field : Spec → Reader (Value P.Object)
    unfolding read_new read_slice read_array read_map read_ptr read_polymorphic
    read_field (primitive_spec p) = read_new p
    read_field (ref_spec t) = read_new t
    read_field (slice_spec t) =
        if resolve_elem_type chain t
        then (read_slice t >>= λ vs. pure (runtime_slice t vs))
        else raise blueprint_not_found
    read_field (array_spec t n) =
        if resolve_elem_type chain t
        then (read_array t n >>= λ vs. pure (runtime_array t vs))
        else raise blueprint_not_found
    read_field (map_spec k t) =
        if is_allowed_map_key k
        then if resolve_elem_type chain t
          then (read_map k t >>= λ ps. pure (runtime_map k t ps))
          else raise blueprint_not_found
        else raise invalid_key
    read_field (ptr_spec t) = read_ptr t
    read_field object_spec = read_polymorphic

    unfoldable pub read_fields : List Field → Reader (Values P.Object)
    unfolding read_field
    read_fields [] = pure end
    read_fields (f ∷ fs) = read_field f.spec >>= λ v. read_fields fs >>= λ vs. pure (more v vs)

  -- ReadFrom of what New returns, on fuel: each RuntimeObject below another is one frame deeper, and
  -- without fuel the answer is that of the frame guard. What an object holds after an error is not
  -- part of it.
  unfoldable pub read_object : ℕ → Chain P.Object → Value P.Object → Reader (Value P.Object)
  unfolding read_fields
  read_object zero chain v = raise depth_exceeded
  read_object (suc fuel) chain v =
      let read_from : Value P.Object → Reader (Value P.Object) = read_object fuel chain in
      elim v [
        | struct_object bp vs ↦
            framed_read (read_fields read_from chain bp.fields >>= λ us. pure (struct_object bp us))
        | alias_object bp u ↦ read_from u >>= λ x. pure (alias_object bp x)
        | compiled o ↦ P.read_from o >>= λ o'. pure (compiled o')
        | nil_marker ↦ pure nil_marker
        | _ ↦ raise nil_value
      ]

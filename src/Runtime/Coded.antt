-- ===== src/Runtime/Coded.antt =====
-- Which runtime values have a wire form that reads back, and which bytes it is: a description of the
-- format apart from the code that writes and reads it. Maps are left out.
use astral_go.Base.{
  ℕ, suc, ◌≡◌, ◌≢◌, ◌<◌, ◌^◌, Bool, true, false, some, List, [], ◌∷◌, ◌++◌, length, ◌==◌, codes,
}
use astral_go.Wire.Reads.{Reads}
use astral_go.Wire.Writes.{Writes}
use astral_go.Astral.Fixed.{big_endian}
use astral_go.Astral.Sized.{w8}
use astral_go.Astral.Sized.Laws.{sized}
use astral_go.Blueprints.Spec.{
  Spec, primitive_spec, ref_spec, slice_spec, array_spec, ptr_spec, object_spec, Field, Blueprint,
}
use astral_go.Blueprints.Registry.{Chain, is_runtime_blueprint_type}
use astral_go.Runtime.Value.{
  Prototypes, Value, absent, nil_marker, compiled, struct_object, alias_object, runtime_slice,
  runtime_array, Values, end, more, count, type_of,
}
use astral_go.Runtime.Construct.{resolve_elem_type, new}

-- A tag that stands for a value: not empty, not the name of Nil, and short enough for a string8.
pub record IsTag (t : List ℕ) : Type 0 where
  pub nonempty : (length t == 0) ≡ false
  pub not_nil : t ≢ codes "nil"
  pub short : length t < 256

module _ (P : Prototypes) where
  -- A compiled object writes `bs`, alone and behind a pointer, and the new object `z` reads them
  -- back, within `d` nested frames.
  pub record HasCodec (d : ℕ) (o z : P.Object) (bs : List ℕ) : Type 0 where
    pub frames_written : ℕ
    pub frames_read : ℕ
    pub elem_frames_written : ℕ
    pub elem_frames_read : ℕ
    pub writes : Writes d frames_written (P.write_to o) bs
    pub reads : Reads d frames_read (P.read_from z) bs o
    pub elem_writes : Writes d elem_frames_written (P.elem_write_to o) bs
    pub elem_reads : Reads d elem_frames_read (P.elem_read_from z) bs o

  abbrev pub IsElement : Bool → Value P.Object → Type 0
  IsElement runtime (compiled o) = runtime ≡ false
  IsElement runtime v = Unit

  -- `n` bounds the nesting of RuntimeObjects.
  module _ (d : ℕ) (chain : Chain P.Object) where
    mutual
      pub data Coded : ℕ → Value P.Object → List ℕ → Type 0 where
        coded_compiled :
            {n : ℕ} {o z : P.Object} {bs : List ℕ}
            → new P.fresh chain (P.object_type o) ≡ some (compiled z)
            → HasCodec d o z bs
            → Coded n (compiled o) bs
        coded_alias :
            {n : ℕ} {bp : Blueprint} {o z : P.Object} {bs : List ℕ}
            → new P.fresh chain bp.type_name ≡ some (alias_object bp (compiled z))
            → HasCodec d o z bs
            → Coded n (alias_object bp (compiled o)) bs
        coded_struct :
            {n : ℕ} {bp : Blueprint} {vs zs : Values P.Object} {bs : List ℕ}
            → new P.fresh chain bp.type_name ≡ some (struct_object bp zs)
            → CodedFields n bp.fields vs bs
            → Coded (suc n) (struct_object bp vs) bs

      pub data CodedFields : ℕ → List Field → Values P.Object → List ℕ → Type 0 where
        no_fields : {n : ℕ} → CodedFields n [] end []
        field :
            {n : ℕ} {f : Field} {fs : List Field} {v : Value P.Object} {vs : Values P.Object}
            {bs cs : List ℕ}
            → CodedField n f.spec v bs
            → CodedFields n fs vs cs
            → CodedFields n (f ∷ fs) (more v vs) (bs ++ cs)

      pub data CodedField : ℕ → Spec → Value P.Object → List ℕ → Type 0 where
        primitive_field :
            {n : ℕ} {v : Value P.Object} {bs : List ℕ}
            → Coded n v bs
            → CodedField n (primitive_spec (type_of P.object_type v)) v bs
        ref_field :
            {n : ℕ} {v : Value P.Object} {bs : List ℕ}
            → Coded n v bs
            → CodedField n (ref_spec (type_of P.object_type v)) v bs
        absent_field : {n : ℕ} {t : List ℕ} → CodedField n (ptr_spec t) nil_marker (big_endian 1 0)
        ptr_field :
            {n : ℕ} {v : Value P.Object} {bs : List ℕ}
            → Coded n v bs
            → CodedField n (ptr_spec (type_of P.object_type v)) v (big_endian 1 1 ++ bs)
        no_object_field : {n : ℕ} → CodedField n object_spec nil_marker (sized w8 [])
        object_field :
            {n : ℕ} {v : Value P.Object} {bs : List ℕ}
            → IsTag (type_of P.object_type v)
            → Coded n v bs
            → CodedField n object_spec v (sized w8 (type_of P.object_type v) ++ bs)
        slice_field :
            {n : ℕ} {name : List ℕ} {vs : Values P.Object} {bs : List ℕ}
            → resolve_elem_type chain name ≡ true
            → count vs < 2 ^ 32
            → CodedSlots n name vs bs
            → CodedField n (slice_spec name) (runtime_slice name vs) (big_endian 4 (count vs) ++ bs)
        array_field :
            {n : ℕ} {name : List ℕ} {vs : Values P.Object} {bs : List ℕ}
            → resolve_elem_type chain name ≡ true
            → CodedSlots n name vs bs
            → CodedField n (array_spec name (count vs)) (runtime_array name vs) bs

      pub data CodedSlots : ℕ → List ℕ → Values P.Object → List ℕ → Type 0 where
        no_slots : {n : ℕ} {name : List ℕ} → CodedSlots n name end []
        slot :
            {n : ℕ} {name : List ℕ} {v : Value P.Object} {vs : Values P.Object} {bs cs : List ℕ}
            → CodedSlot n name v bs
            → CodedSlots n name vs cs
            → CodedSlots n name (more v vs) (bs ++ cs)

      -- A slot of a container whose elements have the type `name`, or of a heterogeneous one.
      pub data CodedSlot : ℕ → List ℕ → Value P.Object → List ℕ → Type 0 where
        absent_pointer :
            {n : ℕ} {name : List ℕ}
            → (length name == 0) ≡ false
            → CodedSlot n name absent (big_endian 1 0)
        object_pointer :
            {n : ℕ} {v : Value P.Object} {bs : List ℕ}
            → (length (type_of P.object_type v) == 0) ≡ false
            → IsElement (is_runtime_blueprint_type chain (type_of P.object_type v)) v
            → Coded n v bs
            → CodedSlot n (type_of P.object_type v) v (big_endian 1 1 ++ bs)
        absent_interface : {n : ℕ} → CodedSlot n [] absent (sized w8 [])
        object_interface :
            {n : ℕ} {v : Value P.Object} {bs : List ℕ}
            → IsTag (type_of P.object_type v)
            → Coded n v bs
            → CodedSlot n [] v (sized w8 (type_of P.object_type v) ++ bs)

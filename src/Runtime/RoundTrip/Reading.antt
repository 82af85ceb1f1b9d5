-- ===== src/Runtime/RoundTrip/Reading.antt =====
-- What ReadFrom and readField of astral/runtime_object.go read from the wire form of a value.
use astral_go.Base.{
  ℕ, zero, suc, ◌+◌, ◌^◌, ◌<◌, ◌≤◌, ◌≡◌, ◌≢◌, true, List, [], ◌++◌, arith, Bool-cases, inl, inr,
}
use astral_go.Wire.Reads.{Reads-pure}
use astral_go.Astral.Fixed.{big_endian, read_fixed}
use astral_go.Blueprints.Spec.{Spec, Field}
use astral_go.Blueprints.Registry.{Chain, is_runtime_blueprint_type}
use astral_go.Runtime.Value.{
  Prototypes, Value, compiled, struct_object, alias_object, runtime_slice, runtime_array, Values,
  end, more, count,
}
use astral_go.Runtime.Read.{
  read_runtime_ptr, read_slot, read_slots, read_slice, read_array, read_field, read_fields,
  read_object,
}
use astral_go.Runtime.Frames.{ReadsTo, ReadsTo-bind, ReadsTo-value, ReadsTo-framed, ReadsTo-depth}
use astral_go.Runtime.Coded.{
  Coded, coded_compiled, coded_alias, coded_struct, CodedFields, no_fields, field, CodedField,
  primitive_field, ref_field, absent_field, ptr_field, no_object_field, object_field, slice_field,
  array_field, CodedSlots, no_slots, slot, CodedSlot, absent_pointer, object_pointer,
  absent_interface, object_interface,
}
use astral_go.Runtime.RoundTrip.Writing.{levels}
use astral_go.Runtime.RoundTrip.Slots.{
  fixed, zero_of, new_formed, absent_pointer_read, absent_interface_read, object_pointer_read,
  object_interface_read, object_runtime_read, absent_runtime_read, ptr_read, absent_ptr_read,
  polymorphic_read, absent_polymorphic_read, from,
}

module _ (P : Prototypes) (d : ℕ) (chain : Chain P.Object) where
  no_empty : is_runtime_blueprint_type chain [] ≢ true
  unfolding is_runtime_blueprint_type
  no_empty e = cc

  -- The elements of a container, read with the frames of its slots or without.
  slots_read :
      (fuel k l : ℕ) (name : List ℕ) {vs : Values P.Object} {bs : List ℕ}
      → ReadsTo
          (k + 2)
          (read_slots P
            (from P d chain fuel)
            chain
            (read_slot P (from P d chain fuel) chain name)
            l)
          bs
          vs
      → (is_runtime_blueprint_type chain name ≡ true
          → ReadsTo
              (k + 2)
              (read_slots P
                (from P d chain fuel)
                chain
                (read_runtime_ptr P (from P d chain fuel) chain name)
                l)
              bs
              vs)
      → ReadsTo (k + 3) (read_array P (from P d chain fuel) chain name l) bs vs
        × (l < 2 ^ 32
            → ReadsTo
                (k + 3)
                (read_slice P (from P d chain fuel) chain name)
                (big_endian 4 l ++ bs)
                vs)
  unfolding read_array read_slice
  slots_read fuel k l name r s = elim (Bool-cases (is_runtime_blueprint_type chain name)) [
    | inl e ↦ rw e (
      ReadsTo-depth (omega arith) (s e),
      λ c. ReadsTo-depth (omega arith) (ReadsTo-bind (read_fixed 4) _ (fixed (k + 2) 4 l c) (s e)),
    )
    | inr e ↦ rw e (
      ReadsTo-depth (omega arith) (ReadsTo-framed r),
      λ c.
          ReadsTo-depth (omega arith)
            (ReadsTo-framed (ReadsTo-bind (read_fixed 4) _ (fixed (k + 2) 4 l c) r)),
    )
  ]

  mutual
    unfolding read_object read_fields read_field read_slots zero_of count

    pub reads_value :
        {n : ℕ} {v : Value P.Object} {bs : List ℕ} (h : Coded P d chain n v bs) (fuel : ℕ)
        → n + 2 ≤ fuel
        → ReadsTo (levels d n) (read_object P fuel chain (zero_of P d chain h)) bs v
    reads_value h zero f = absurd (omega arith)
    reads_value h (suc zero) f = absurd (omega arith)
    reads_value (coded_compiled {z} e h) (suc (suc fuel)) f =
        ReadsTo-value (P.read_from z) compiled
          (ReadsTo-depth (omega arith) (h.frames_read, h.reads))
    reads_value (coded_alias {bp} {z} e h) (suc (suc fuel)) f = ReadsTo-value _ (alias_object bp) (
        ReadsTo-value (P.read_from z) compiled
          (ReadsTo-depth (omega arith) (h.frames_read, h.reads)))
    reads_value (coded_struct {n} {bp} e h) (suc (suc fuel)) f = ReadsTo-depth (omega arith) (
        ReadsTo-framed
          (ReadsTo-value _ (struct_object bp) (reads_fields h (suc fuel) (omega arith))))

    reads_fields :
        {n : ℕ} {fs : List Field} {vs : Values P.Object} {bs : List ℕ}
        → CodedFields P d chain n fs vs bs
        → (fuel : ℕ) → n + 2 ≤ fuel
        → ReadsTo (levels d n + 3) (read_fields P (from P d chain fuel) chain fs) bs vs
    reads_fields {n} no_fields fuel f = (0, Reads-pure (levels d n + 3) end)
    reads_fields (field {v} h hs) fuel f =
        ReadsTo-bind _ _ (reads_field h fuel f) (ReadsTo-value _ (more v) (reads_fields hs fuel f))

    reads_field :
        {n : ℕ} {s : Spec} {v : Value P.Object} {bs : List ℕ}
        → CodedField P d chain n s v bs
        → (fuel : ℕ) → n + 2 ≤ fuel
        → ReadsTo (levels d n + 3) (read_field P (from P d chain fuel) chain s) bs v
    reads_field (primitive_field h) fuel f =
        ReadsTo-depth (omega arith) (new_formed P d chain fuel h (reads_value h fuel f)).0
    reads_field (ref_field h) fuel f =
        ReadsTo-depth (omega arith) (new_formed P d chain fuel h (reads_value h fuel f)).0
    reads_field (absent_field {n} {t}) fuel f = absent_ptr_read P d chain fuel (levels d n + 3) t
    reads_field (ptr_field h) fuel f =
        ReadsTo-depth (omega arith) (ptr_read P d chain fuel h (reads_value h fuel f))
    reads_field (no_object_field {n}) fuel f =
        absent_polymorphic_read P d chain fuel (levels d n + 3)
    reads_field (object_field t h) fuel f =
        ReadsTo-depth (omega arith) (polymorphic_read P d chain fuel h t (reads_value h fuel f))
    reads_field (slice_field {n} {name} {vs} e c h) fuel f = rw e (
        ReadsTo-value _ (runtime_slice name) (
          (slots_read fuel (levels d n) (count vs) name (reads_slots h fuel f)
              (λ t. reads_runtime h fuel f t)).1
            c))
    reads_field (array_field {n} {name} {vs} e h) fuel f = rw e (
        ReadsTo-value _ (runtime_array name) (
          (slots_read fuel (levels d n) (count vs) name (reads_slots h fuel f)
            (λ t. reads_runtime h fuel f t)).0))

    reads_slots :
        {n : ℕ} {name : List ℕ} {vs : Values P.Object} {bs : List ℕ}
        → CodedSlots P d chain n name vs bs
        → (fuel : ℕ) → n + 2 ≤ fuel
        → ReadsTo
            (levels d n + 2)
            (read_slots P
              (from P d chain fuel)
              chain
              (read_slot P (from P d chain fuel) chain name)
              (count vs))
            bs
            vs
    reads_slots {n} no_slots fuel f = (0, Reads-pure (levels d n + 2) end)
    reads_slots (slot {v} h hs) fuel f =
        ReadsTo-bind _ _ (reads_slot h fuel f) (ReadsTo-value _ (more v) (reads_slots hs fuel f))

    reads_slot :
        {n : ℕ} {name : List ℕ} {v : Value P.Object} {bs : List ℕ}
        → CodedSlot P d chain n name v bs
        → (fuel : ℕ) → n + 2 ≤ fuel
        → ReadsTo (levels d n + 2) (read_slot P (from P d chain fuel) chain name) bs v
    reads_slot (absent_pointer {n} {name} e) fuel f =
        absent_pointer_read P d chain fuel (levels d n) name e
    reads_slot (object_pointer e i h) fuel f =
        object_pointer_read P d chain fuel h e (reads_value h fuel f)
    reads_slot (absent_interface {n}) fuel f = absent_interface_read P d chain fuel (levels d n)
    reads_slot (object_interface t h) fuel f =
        object_interface_read P d chain fuel h t (reads_value h fuel f)

    reads_runtime :
        {n : ℕ} {name : List ℕ} {vs : Values P.Object} {bs : List ℕ}
        → CodedSlots P d chain n name vs bs
        → (fuel : ℕ) → n + 2 ≤ fuel
        → is_runtime_blueprint_type chain name ≡ true
        → ReadsTo
            (levels d n + 2)
            (read_slots P
              (from P d chain fuel)
              chain
              (read_runtime_ptr P (from P d chain fuel) chain name)
              (count vs))
            bs
            vs
    reads_runtime {n} no_slots fuel f t = (0, Reads-pure (levels d n + 2) end)
    reads_runtime (slot {v} h hs) fuel f t =
        ReadsTo-bind _ _ (reads_runtime_slot h fuel f t)
          (ReadsTo-value _ (more v) (reads_runtime hs fuel f t))

    reads_runtime_slot :
        {n : ℕ} {name : List ℕ} {v : Value P.Object} {bs : List ℕ}
        → CodedSlot P d chain n name v bs
        → (fuel : ℕ) → n + 2 ≤ fuel
        → is_runtime_blueprint_type chain name ≡ true
        → ReadsTo (levels d n + 2) (read_runtime_ptr P (from P d chain fuel) chain name) bs v
    reads_runtime_slot (absent_pointer {n} {name} e) fuel f t =
        absent_runtime_read P d chain fuel (levels d n) name
    reads_runtime_slot (object_pointer e i h) fuel f t =
        object_runtime_read P d chain fuel h (rw t at i) (reads_value h fuel f)
    reads_runtime_slot absent_interface fuel f t = absurd (no_empty t)
    reads_runtime_slot (object_interface u h) fuel f t = absurd (no_empty t)

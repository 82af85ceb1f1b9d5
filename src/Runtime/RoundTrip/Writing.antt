-- ===== src/Runtime/RoundTrip/Writing.antt =====
-- What WriteTo and writeField of astral/runtime_object.go append for a value that has a wire form.

use astral_go.Base.{
  ℕ, ◌+◌, ◌*◌, ◌%◌, ◌^◌, ◌<◌, ◌≡◌, refl, false, List, [], ◌++◌, length, ◌==◌, arith,
}
use astral_go.Wire.Out.{◌>>◌}
use astral_go.Wire.Stream.{Writer, framed_write, attach_writer}
use astral_go.Wire.Writes.{Writes-pure}
use astral_go.Astral.Fixed.{big_endian, write_fixed}
use astral_go.Astral.Fixed.Laws.{Writes-write_fixed}
use astral_go.Astral.Sized.{w8, write_string}
use astral_go.Astral.Sized.Laws.{sized, Writes-write_sized}
use astral_go.Astral.Header.{short_type_encoder}
use astral_go.Astral.Header.Laws.{Writes-write_object_type, short_header}
use astral_go.Blueprints.Spec.{Spec, object_spec, Field}
use astral_go.Blueprints.Registry.{Chain}
use astral_go.Runtime.Value.{Prototypes, Value, absent, Values, type_of}
use astral_go.Runtime.Write.{
  non_nil, is_ptr_nil, write_field, write_elem, write_pointer, write_interface, write_slot,
  write_value, write_fields, write_slots,
}
use astral_go.Runtime.Frames.{
  WritesTo, WritesTo-then, WritesTo-framed, WritesTo-depth, WritesTo-attached,
}
use astral_go.Runtime.Coded.{
  IsTag, Coded, coded_compiled, coded_alias, coded_struct, CodedFields, no_fields, field,
  CodedField, primitive_field, ref_field, absent_field, ptr_field, no_object_field, object_field,
  slice_field, array_field, CodedSlots, no_slots, slot, CodedSlot, absent_pointer, object_pointer,
  absent_interface, object_interface,
}

-- The levels of depth for `n` nested RuntimeObjects over compiled objects with `d` of them: the
-- object, a container in it, a slot and the pointer in the slot.
abbrev pub levels : ℕ → ℕ → ℕ
levels d n = d + 4 * n

fixed : (d w v : ℕ) → WritesTo d (write_fixed w v) (big_endian w v)
fixed d w v = WritesTo-depth (omega arith) (0, Writes-write_fixed w v)

counted :
    {k : ℕ} {bs : List ℕ} (l : ℕ) (w : Writer)
    → l < 2 ^ 32
    → WritesTo k w bs
    → WritesTo (k + 1) (framed_write (write_fixed 4 (l % 2 ^ 32) >> w)) (big_endian 4 l ++ bs)
counted l w c h =
    let whole : l % 2 ^ 32 ≡ l = omega arith in
    rw whole (WritesTo-framed (WritesTo-then _ _ (fixed _ 4 l) h))

tag : (k : ℕ) (t : List ℕ) → IsTag t → WritesTo k (write_string w8 t) (sized w8 t)
unfolding write_string
tag k t h = WritesTo-depth (omega arith) (0, Writes-write_sized w8 t h.short)

module _ (P : Prototypes) (d : ℕ) (chain : Chain P.Object) where
  non_nil_formed :
      {n : ℕ} {v : Value P.Object} {bs : List ℕ} (w : Writer)
      → Coded P d chain n v bs
      → non_nil v w ≡ w
  non_nil_formed w (coded_compiled e h) = refl
  non_nil_formed w (coded_alias e h) = refl
  non_nil_formed w (coded_struct e h) = refl

  pub is_ptr_nil_formed :
      {n : ℕ} {v : Value P.Object} {bs : List ℕ} → Coded P d chain n v bs → is_ptr_nil v ≡ false
  unfolding is_ptr_nil
  is_ptr_nil_formed (coded_compiled e h) = refl
  is_ptr_nil_formed (coded_alias e h) = refl
  is_ptr_nil_formed (coded_struct e h) = refl

  object_field_formed :
      {n : ℕ} {v : Value P.Object} {bs : List ℕ} (w : Writer)
      → Coded P d chain n v bs
      → write_field P object_spec v w
        ≡ attach_writer (short_type_encoder (type_of P.object_type v) >> w)
  unfolding write_field is_ptr_nil
  object_field_formed w (coded_compiled e h) = refl
  object_field_formed w (coded_alias e h) = refl
  object_field_formed w (coded_struct e h) = refl

  absent_slot_pointer :
      (k : ℕ) (name : List ℕ) (w : Writer)
      → (length name == 0) ≡ false
      → WritesTo (k + 2) (write_slot P name absent w) (big_endian 1 0)
  unfolding write_slot write_pointer
  absent_slot_pointer k name w e =
      rw e (WritesTo-depth (omega arith) (WritesTo-framed (fixed (k + 1) 1 0)))

  absent_slot_interface :
      (k : ℕ) (w : Writer) → WritesTo (k + 2) (write_slot P [] absent w) (sized w8 [])
  unfolding write_slot write_interface is_ptr_nil big_endian
  absent_slot_interface k w = WritesTo-depth (omega arith) (WritesTo-framed (fixed (k + 1) 1 0))

  pointer_formed :
      {n : ℕ} {v : Value P.Object} {bs : List ℕ} (w : Writer)
      → Coded P d chain n v bs
      → write_pointer P v w ≡ framed_write (write_fixed 1 1 >> write_elem P v w)
  unfolding write_pointer
  pointer_formed w (coded_compiled e h) = refl
  pointer_formed w (coded_alias e h) = refl
  pointer_formed w (coded_struct e h) = refl

  slot_pointer_formed :
      {n : ℕ} {v : Value P.Object} {bs : List ℕ} (name : List ℕ) (w : Writer)
      → (length name == 0) ≡ false
      → Coded P d chain n v bs
      → write_slot P name v w ≡ framed_write (write_fixed 1 1 >> write_elem P v w)
  unfolding write_slot
  slot_pointer_formed name w e h = rw e (pointer_formed w h)

  slot_interface_formed :
      {n : ℕ} {v : Value P.Object} {bs : List ℕ} (w : Writer)
      → IsTag (type_of P.object_type v)
      → Coded P d chain n v bs
      → write_slot P [] v w
        ≡ framed_write
            (write_string w8 (type_of P.object_type v) >> framed_write (write_elem P v w))
  unfolding write_slot write_interface
  slot_interface_formed w t h = rw (is_ptr_nil_formed h, t.nonempty) refl

  elem_formed :
      {n : ℕ} {v : Value P.Object} {bs : List ℕ} (w : Writer)
      → Coded P d chain n v bs
      → WritesTo (levels d n) w bs
      → WritesTo (levels d n) (write_elem P v w) bs
  unfolding write_elem
  elem_formed w (coded_compiled e h) hw =
      WritesTo-depth (omega arith) (h.elem_frames_written, h.elem_writes)
  elem_formed w (coded_alias e h) hw = hw
  elem_formed w (coded_struct e h) hw = hw

  mutual
    unfolding write_value write_field

    pub writes_value :
        {n : ℕ} {v : Value P.Object} {bs : List ℕ}
        → Coded P d chain n v bs
        → WritesTo (levels d n) (write_value P v) bs
    writes_value (coded_compiled e h) = WritesTo-depth (omega arith) (h.frames_written, h.writes)
    writes_value (coded_alias e h) = WritesTo-depth (omega arith) (h.frames_written, h.writes)
    writes_value (coded_struct {n} e h) =
        WritesTo-depth (omega arith) (WritesTo-framed (writes_fields h))

    writes_fields :
        {n : ℕ} {fs : List Field} {vs : Values P.Object} {bs : List ℕ}
        → CodedFields P d chain n fs vs bs
        → WritesTo (levels d n + 3) (write_fields P fs vs) bs
    writes_fields {n} no_fields = (0, Writes-pure (levels d n + 3))
    writes_fields (field h hs) = WritesTo-then _ _ (writes_field h) (writes_fields hs)

    writes_field :
        {n : ℕ} {s : Spec} {v : Value P.Object} {bs : List ℕ}
        → CodedField P d chain n s v bs
        → WritesTo (levels d n + 3) (write_field P s v (write_value P v)) bs
    writes_field (primitive_field h) =
        rw (non_nil_formed _ h) (WritesTo-depth (omega arith) (writes_value h))
    writes_field (ref_field h) =
        rw (non_nil_formed _ h) (WritesTo-depth (omega arith) (writes_value h))
    writes_field absent_field = fixed _ 1 0
    writes_field (ptr_field h) =
        rw (is_ptr_nil_formed h)
          (WritesTo-then _ _ (fixed _ 1 1) (WritesTo-depth (omega arith) (writes_value h)))
    writes_field no_object_field =
        WritesTo-depth (omega arith) (0, Writes-write_object_type [] (omega arith))
    writes_field (object_field t h) = rw (object_field_formed _ h) (
        WritesTo-attached (
          WritesTo-then _ _
            (WritesTo-depth (omega arith)
              (0, (short_header _ (ground (arith, t.nonempty)) t.short).0))
            (WritesTo-depth (omega arith) (writes_value h))))
    writes_field (slice_field e c h) = WritesTo-depth (omega arith) (counted _ _ c (writes_slots h))
    writes_field (array_field e h) = WritesTo-depth (omega arith) (WritesTo-framed (writes_slots h))

    writes_slots :
        {n : ℕ} {name : List ℕ} {vs : Values P.Object} {bs : List ℕ}
        → CodedSlots P d chain n name vs bs
        → WritesTo (levels d n + 2) (write_slots P name vs) bs
    writes_slots {n} no_slots = (0, Writes-pure (levels d n + 2))
    writes_slots (slot h hs) = WritesTo-then _ _ (writes_slot h) (writes_slots hs)

    writes_slot :
        {n : ℕ} {name : List ℕ} {v : Value P.Object} {bs : List ℕ}
        → CodedSlot P d chain n name v bs
        → WritesTo (levels d n + 2) (write_slot P name v (write_value P v)) bs
    writes_slot (absent_pointer {n} e) = absent_slot_pointer (levels d n) _ (write_value P absent) e
    writes_slot (object_pointer e i h) = rw (slot_pointer_formed _ _ e h) (
        WritesTo-depth (omega arith)
          (WritesTo-framed (WritesTo-then _ _ (fixed _ 1 1) (elem_formed _ h (writes_value h)))))
    writes_slot (absent_interface {n}) = absent_slot_interface (levels d n) (write_value P absent)
    writes_slot (object_interface t h) = rw (slot_interface_formed _ t h) (
        WritesTo-depth (omega arith) (
          WritesTo-framed
            (WritesTo-then _ _ (tag _ _ t) (WritesTo-framed (elem_formed _ h (writes_value h))))))

-- ===== src/Runtime/RoundTrip/Slots.antt =====
-- What a slot, a presence flag and a tagged value read from the wire form of a value
-- (astral/ptr_value.go, astral/interface_value.go, astral/runtime_blueprint_codec.go).
use astral_go.Base.{
  ℕ, ◌+◌, ◌^◌, ◌<◌, ◌≡◌, refl, true, false, some, List, [], ◌++◌, length, ◌==◌, codes, str_eq_iff,
  arith,
}
use astral_go.Wire.Stream.{Reader}
use astral_go.Astral.Fixed.{big_endian, read_fixed}
use astral_go.Astral.Fixed.Laws.{Reads-read_fixed}
use astral_go.Astral.Sized.{w8, read_string}
use astral_go.Astral.Sized.Laws.{sized, Reads-read_string}
use astral_go.Astral.Header.{read_object_type}
use astral_go.Astral.Header.Laws.{Reads-read_object_type}
use astral_go.Blueprints.Registry.{Chain}
use astral_go.Runtime.Value.{
  Prototypes, Value, absent, nil_marker, compiled, struct_object, alias_object, type_of,
}
use astral_go.Runtime.Construct.{new}
use astral_go.Runtime.Read.{
  is_nil_name, read_new, read_tagged, read_polymorphic, runtime_object, read_runtime_ptr,
  elem_object, read_pointer, read_interface, read_slot, read_ptr, read_object,
}
use astral_go.Runtime.Frames.{
  ReadsTo, ReadsTo-bind, ReadsTo-value, ReadsTo-framed, ReadsTo-depth, ReadsTo-last,
}
use astral_go.Runtime.Coded.{IsTag, Coded, coded_compiled, coded_alias, coded_struct, IsElement}
use astral_go.Runtime.RoundTrip.Writing.{levels}

pub fixed : (k w v : ℕ) → v < 256 ^ w → ReadsTo k (read_fixed w) (big_endian w v) v
fixed k w v h = ReadsTo-depth (omega arith) (0, Reads-read_fixed w v h)

string8 : (k : ℕ) (t : List ℕ) → length t < 256 → ReadsTo k (read_string w8) (sized w8 t) t
string8 k t h = ReadsTo-depth (omega arith) (0, Reads-read_string w8 t h)

object_type : (k : ℕ) (t : List ℕ) → length t < 256 → ReadsTo k read_object_type (sized w8 t) t
object_type k t h = ReadsTo-depth (omega arith) (0, Reads-read_object_type t h)

tag_names : (t : List ℕ) → IsTag t → is_nil_name t ≡ false
tag_names t h = ground (arith, h.nonempty, h.not_nil, str_eq_iff t (codes "nil"))

module _ (P : Prototypes) (d : ℕ) (chain : Chain P.Object) where
  -- The object that New returns for the type of a value.
  unfoldable pub zero_of :
      {n : ℕ} {v : Value P.Object} {bs : List ℕ} → Coded P d chain n v bs → Value P.Object
  zero_of (coded_compiled {z} e h) = compiled z
  zero_of (coded_alias {bp} {z} e h) = alias_object bp (compiled z)
  zero_of (coded_struct {bp} {zs} e h) = struct_object bp zs

  pub new-zero_of :
      {n : ℕ} {v : Value P.Object} {bs : List ℕ} (h : Coded P d chain n v bs)
      → new P.fresh chain (type_of P.object_type v) ≡ some (zero_of h)
  unfolding zero_of type_of
  new-zero_of (coded_compiled e h) = e
  new-zero_of (coded_alias e h) = e
  new-zero_of (coded_struct e h) = e

  module _ (fuel : ℕ) where
    abbrev pub from : Value P.Object → Reader (Value P.Object)
    from = read_object P fuel chain

    elem_formed :
        {n : ℕ} {v : Value P.Object} {bs : List ℕ} (h : Coded P d chain n v bs)
        → ReadsTo (levels d n) (from (zero_of h)) bs v
        → ReadsTo (levels d n) (elem_object P from chain (zero_of h)) bs v
    unfolding zero_of
    elem_formed (coded_compiled {z} e h) r =
        ReadsTo-value (P.elem_read_from z) compiled
          (ReadsTo-depth (omega arith) (h.elem_frames_read, h.elem_reads))
    elem_formed (coded_alias e h) r = r
    elem_formed (coded_struct e h) r = r

    runtime_formed :
        {n : ℕ} {v : Value P.Object} {bs : List ℕ} (h : Coded P d chain n v bs)
        → IsElement P true v
        → ReadsTo (levels d n) (from (zero_of h)) bs v
        → ReadsTo (levels d n) (runtime_object P from chain (zero_of h)) bs v
    unfolding zero_of
    runtime_formed (coded_compiled e h) i r = cc
    runtime_formed (coded_alias e h) i r = r
    runtime_formed (coded_struct e h) i r = r

    pub new_formed :
        {n : ℕ} {v : Value P.Object} {bs : List ℕ} (h : Coded P d chain n v bs)
        → ReadsTo (levels d n) (from (zero_of h)) bs v
        → ReadsTo (levels d n) (read_new P from chain (type_of P.object_type v)) bs v
          × ReadsTo (levels d n) (read_tagged P from chain (type_of P.object_type v)) bs v
    unfolding read_new read_tagged
    new_formed h r = (rw (new-zero_of h, read_new) r, rw (new-zero_of h, read_tagged) r)

    pub absent_pointer_read :
        (k : ℕ) (name : List ℕ)
        → (length name == 0) ≡ false
        → ReadsTo (k + 2) (read_slot P from chain name) (big_endian 1 0) absent
    unfolding read_slot read_pointer
    absent_pointer_read k name e = rw e (
        ReadsTo-depth (omega arith)
          (ReadsTo-framed (ReadsTo-last (read_fixed 1) _ (fixed k 1 0 (omega arith)) refl)))

    pub absent_interface_read :
        (k : ℕ) → ReadsTo (k + 2) (read_slot P from chain []) (sized w8 []) absent
    unfolding read_slot read_interface
    absent_interface_read k =
        ReadsTo-depth (omega arith)
          (ReadsTo-framed (ReadsTo-last (read_string w8) _ (string8 k [] (omega arith)) refl))

    pub object_pointer_read :
        {n : ℕ} {v : Value P.Object} {bs : List ℕ} (h : Coded P d chain n v bs)
        → (length (type_of P.object_type v) == 0) ≡ false
        → ReadsTo (levels d n) (from (zero_of h)) bs v
        → ReadsTo
            (levels d n + 2)
            (read_slot P from chain (type_of P.object_type v))
            (big_endian 1 1 ++ bs)
            v
    unfolding read_slot read_pointer
    object_pointer_read {n} h e r = rw e (
        ReadsTo-depth (omega arith) (
          ReadsTo-framed (
            ReadsTo-bind (read_fixed 1) _ (fixed (levels d n) 1 1 (omega arith))
              (rw (new-zero_of h) (elem_formed h r)))))

    pub object_interface_read :
        {n : ℕ} {v : Value P.Object} {bs : List ℕ} (h : Coded P d chain n v bs)
        → IsTag (type_of P.object_type v)
        → ReadsTo (levels d n) (from (zero_of h)) bs v
        → ReadsTo
            (levels d n + 2)
            (read_slot P from chain [])
            (sized w8 (type_of P.object_type v) ++ bs)
            v
    unfolding read_slot read_interface
    object_interface_read {n} h t r = ReadsTo-depth (omega arith) (
        ReadsTo-framed (
          ReadsTo-bind (read_string w8) _ (string8 (levels d n) _ t.short)
            (rw (tag_names _ t) (new_formed h r).1)))

    pub object_runtime_read :
        {n : ℕ} {v : Value P.Object} {bs : List ℕ} (h : Coded P d chain n v bs)
        → IsElement P true v
        → ReadsTo (levels d n) (from (zero_of h)) bs v
        → ReadsTo
            (levels d n + 2)
            (read_runtime_ptr P from chain (type_of P.object_type v))
            (big_endian 1 1 ++ bs)
            v
    unfolding read_runtime_ptr
    object_runtime_read {n} h i r = ReadsTo-depth (omega arith) (
        ReadsTo-bind (read_fixed 1) _ (fixed (levels d n) 1 1 (omega arith))
          (rw (new-zero_of h) (runtime_formed h i r)))

    pub absent_runtime_read :
        (k : ℕ) (name : List ℕ)
        → ReadsTo (k + 2) (read_runtime_ptr P from chain name) (big_endian 1 0) absent
    unfolding read_runtime_ptr
    absent_runtime_read k name =
        ReadsTo-depth (omega arith) (ReadsTo-last (read_fixed 1) _ (fixed k 1 0 (omega arith)) refl)

    pub ptr_read :
        {n : ℕ} {v : Value P.Object} {bs : List ℕ} (h : Coded P d chain n v bs)
        → ReadsTo (levels d n) (from (zero_of h)) bs v
        → ReadsTo
            (levels d n)
            (read_ptr P from chain (type_of P.object_type v))
            (big_endian 1 1 ++ bs)
            v
    unfolding read_ptr
    ptr_read h r = ReadsTo-bind (read_fixed 1) _ (fixed _ 1 1 (omega arith)) (new_formed h r).0

    pub absent_ptr_read :
        (k : ℕ) (t : List ℕ) → ReadsTo k (read_ptr P from chain t) (big_endian 1 0) nil_marker
    unfolding read_ptr
    absent_ptr_read k t = ReadsTo-last (read_fixed 1) _ (fixed k 1 0 (omega arith)) refl

    pub polymorphic_read :
        {n : ℕ} {v : Value P.Object} {bs : List ℕ} (h : Coded P d chain n v bs)
        → IsTag (type_of P.object_type v)
        → ReadsTo (levels d n) (from (zero_of h)) bs v
        → ReadsTo
            (levels d n)
            (read_polymorphic P from chain)
            (sized w8 (type_of P.object_type v) ++ bs)
            v
    unfolding read_polymorphic
    polymorphic_read h t r =
        ReadsTo-bind read_object_type _ (object_type _ _ t.short)
          (rw (tag_names _ t) (new_formed h r).1)

    pub absent_polymorphic_read :
        (k : ℕ) → ReadsTo k (read_polymorphic P from chain) (sized w8 []) nil_marker
    unfolding read_polymorphic
    absent_polymorphic_read k =
        ReadsTo-last read_object_type _ (object_type k [] (omega arith)) refl

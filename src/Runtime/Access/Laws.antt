-- ===== src/Runtime/Access/Laws.antt =====
-- What Set of a RuntimeObject changes, and the types that the fields keep.
use astral_go.Base.{
  same_value, ℕ, ◌-◌, ◌^◌, ◌≡◌, ◌≢◌, ap, sym, ◌∙◌, Bool, true, false, Option, none, some, List,
  length, Bool-cases, Option-cases, inl, inr, ◌⊎◌, str_eq, str_eq_iff, ==_iff, ltb, codes, ◌==◌,
  if◌then◌else◌,
}
use astral_go.Blueprints.Spec.{
  Spec, primitive_spec, ref_spec, slice_spec, array_spec, map_spec, ptr_spec, object_spec,
}
use astral_go.Runtime.Value.{
  Value, absent, nil_marker, compiled, struct_object, alias_object, runtime_slice, runtime_array,
  runtime_map, Pairs, Values, count, type_of,
}
use astral_go.Runtime.Access.{
  Any, string_value, bytes_value, object, other, narrow_string, narrow_bytes, normalize_primitive,
  normalize, typed,
}

pub nothing : {T : Type 0} {a : T} → none ≢ some a
nothing e = cc

chosen :
    {T G : Type 0} {x y : Option T} {u : T} (t : Bool)
    → (x ≡ some u → G)
    → (y ≡ some u → G)
    → (if t then x else y) ≡ some u
    → G
chosen true f g e = f e
chosen false f g e = g e

module _ {N A : Type 0} (object_type : A → List ℕ) (buffer : List ℕ → List ℕ → A)
    (adapt : N → Option (Value A))
    (buffer_type : (name b : List ℕ) → object_type (buffer name b) ≡ name) where
  -- The value is one that the Spec describes.
  unfoldable pub HasShape : Spec → Value A → Type 0
  HasShape (primitive_spec p) v = type_of object_type v ≡ p
  HasShape (ref_spec t) v = type_of object_type v ≡ t
  HasShape (slice_spec t) v = (vs : Values A) × (v ≡ runtime_slice t vs)
  HasShape (array_spec t n) v = (vs : Values A) × (v ≡ runtime_array t vs) × (count vs ≡ n)
  HasShape (map_spec k t) v = (ps : Pairs A) × (v ≡ runtime_map k t ps)
  HasShape (ptr_spec t) v = (v ≡ nil_marker) ⊎ (type_of object_type v ≡ t)
  HasShape object_spec v = v ≢ absent

  picked :
      (t : List ℕ) (v u : Value A)
      → (if str_eq (type_of object_type v) t then some v else none) ≡ some u
      → type_of object_type u ≡ t
  picked t v u e = elim (Bool-cases (str_eq (type_of object_type v) t)) [
    | inl c ↦
        let same : some v ≡ some u = rw c at e in
        ap (type_of object_type) (sym (same_value same))
        ∙ (str_eq_iff (type_of object_type v) t).0 c
    | inr c ↦ absurd (nothing (rw c at e))
  ]

  typed-HasType :
      (t : List ℕ) (v u : Value A)
      → typed object_type buffer adapt t v ≡ some u
      → type_of object_type u ≡ t
  typed-HasType t absent u e = cc
  typed-HasType t nil_marker u e = picked t nil_marker u e
  typed-HasType t (compiled o) u e = picked t (compiled o) u e
  typed-HasType t (struct_object b vs) u e = picked t (struct_object b vs) u e
  typed-HasType t (alias_object b v) u e = picked t (alias_object b v) u e
  typed-HasType t (runtime_slice n vs) u e = picked t (runtime_slice n vs) u e
  typed-HasType t (runtime_array n vs) u e = picked t (runtime_array n vs) u e
  typed-HasType t (runtime_map k n ps) u e = picked t (runtime_map k n ps) u e

  buffered :
      (name b : List ℕ) (small : Bool) (u : Value A)
      → (if small then none else some (compiled (buffer name b))) ≡ some u
      → type_of object_type u ≡ name
  unfolding type_of
  buffered name b true u e = cc
  buffered name b false u e = ap (type_of object_type) (sym (same_value e)) ∙ buffer_type name b

  -- The four widths of a buffer, with their limits.
  ladder :
      (name b : List ℕ) (u : Value A) (is8 is16 is32 is64 over8 over16 over32 : Bool)
      → (let held : Option (Value A) = some (compiled (buffer name b)) in
          if is8
          then if over8 then none else held
          else if is16
          then if over16 then none else held
          else if is32
          then if over32 then none else held
          else if is64
          then held
          else none)
        ≡ some u
      → type_of object_type u ≡ name
  ladder name b u is8 is16 is32 is64 over8 over16 over32 = chosen is8 (buffered name b over8 u) (
      chosen is16 (buffered name b over16 u) (
        chosen is32 (buffered name b over32 u)
          (chosen is64 (buffered name b false u) (λ n. absurd (nothing n)))))

  narrow_string-type :
      (name s : List ℕ) (u : Value A)
      → narrow_string object_type buffer adapt name s ≡ some u
      → type_of object_type u ≡ name
  unfolding narrow_string
  narrow_string-type name s u e =
      ladder name s u (str_eq name (codes "string8")) (str_eq name (codes "string16"))
        (str_eq name (codes "string32")) (str_eq name (codes "string64"))
        (ltb (2 ^ 8 - 1) (length s)) (ltb (2 ^ 16 - 1) (length s)) (ltb (2 ^ 32 - 1) (length s)) e

  narrow_bytes-type :
      (name b : List ℕ) (u : Value A)
      → narrow_bytes object_type buffer adapt name b ≡ some u
      → type_of object_type u ≡ name
  unfolding narrow_bytes
  narrow_bytes-type name b u e =
      ladder name b u (str_eq name (codes "bytes8")) (str_eq name (codes "bytes16"))
        (str_eq name (codes "bytes32")) (str_eq name (codes "bytes64")) (ltb (2 ^ 8 - 1) (length b))
        (ltb (2 ^ 16 - 1) (length b)) (ltb (2 ^ 32 - 1) (length b)) e

  primitive-type :
      (p : List ℕ) (x : Any N A) (u : Value A)
      → normalize_primitive object_type buffer adapt p x ≡ some u
      → type_of object_type u ≡ p
  unfolding normalize_primitive
  primitive-type p (string_value s) u e = narrow_string-type p s u e
  primitive-type p (bytes_value b) u e = narrow_bytes-type p b u e
  primitive-type p (object absent) u e = typed-HasType p nil_marker u e
  primitive-type p (object nil_marker) u e = typed-HasType p nil_marker u e
  primitive-type p (object (compiled o)) u e = typed-HasType p (compiled o) u e
  primitive-type p (object (struct_object b vs)) u e = typed-HasType p (struct_object b vs) u e
  primitive-type p (object (alias_object b v)) u e = typed-HasType p (alias_object b v) u e
  primitive-type p (object (runtime_slice n vs)) u e = typed-HasType p (runtime_slice n vs) u e
  primitive-type p (object (runtime_array n vs)) u e = typed-HasType p (runtime_array n vs) u e
  primitive-type p (object (runtime_map k n ps)) u e = typed-HasType p (runtime_map k n ps) u e
  primitive-type p (other n) u e = elim (Option-cases (adapt n)) [
    | inl c ↦ absurd (nothing (rw (c, normalize_primitive) at e))
    | inr (v, c) ↦ typed-HasType p v u (rw (c, normalize_primitive) at e)
  ]

  slice_shape :
      (t name : List ℕ) (vs : Values A) (u : Value A)
      → (if str_eq name t then some (runtime_slice name vs) else none) ≡ some u
      → u ≡ runtime_slice t vs
  slice_shape t name vs u e = elim (Bool-cases (str_eq name t)) [
    | inl c ↦ sym (same_value (rw c at e)) ∙ ap (λ n. runtime_slice n vs) ((str_eq_iff name t).0 c)
    | inr c ↦ absurd (nothing (rw c at e))
  ]

  array_shape :
      (t name : List ℕ) (n : ℕ) (vs : Values A) (u : Value A)
      → (if count vs == n
          then if str_eq name t then some (runtime_array name vs) else none
          else none)
        ≡ some u
      → (u ≡ runtime_array t vs) × (count vs ≡ n)
  array_shape t name n vs u e = elim (Bool-cases (count vs == n)) [
    | inr k ↦ absurd (nothing (rw k at e))
    | inl k ↦ elim (Bool-cases (str_eq name t)) [
      | inl c ↦ (
        sym (same_value (rw (k, c) at e)) ∙ ap (λ n. runtime_array n vs) ((str_eq_iff name t).0 c),
        (==_iff (count vs) n).0 k,
      )
      | inr c ↦ absurd (nothing (rw (k, c) at e))
    ]
  ]

  map_shape :
      (k t key name : List ℕ) (ps : Pairs A) (u : Value A)
      → (if str_eq name t
          then if str_eq key k then some (runtime_map key name ps) else none
          else none)
        ≡ some u
      → u ≡ runtime_map k t ps
  map_shape k t key name ps u e = elim (Bool-cases (str_eq name t)) [
    | inr c ↦ absurd (nothing (rw c at e))
    | inl c ↦ elim (Bool-cases (str_eq key k)) [
      | inl d ↦
          sym (same_value (rw (c, d) at e))
          ∙ ap (λ n. runtime_map key n ps) ((str_eq_iff name t).0 c)
          ∙ ap (λ m. runtime_map m t ps) ((str_eq_iff key k).0 d)
      | inr d ↦ absurd (nothing (rw (c, d) at e))
    ]
  ]

  ptr_shape :
      (t : List ℕ) (v u : Value A)
      → normalize object_type buffer adapt (ptr_spec t) (object v) ≡ some u
      → (u ≡ nil_marker) ⊎ (type_of object_type u ≡ t)
  unfolding normalize
  ptr_shape t absent u e = inl (sym (same_value e))
  ptr_shape t nil_marker u e = inl (sym (same_value e))
  ptr_shape t (compiled o) u e = inr (typed-HasType t (compiled o) u e)
  ptr_shape t (struct_object b vs) u e = inr (typed-HasType t (struct_object b vs) u e)
  ptr_shape t (alias_object b v) u e = inr (typed-HasType t (alias_object b v) u e)
  ptr_shape t (runtime_slice n vs) u e = inr (typed-HasType t (runtime_slice n vs) u e)
  ptr_shape t (runtime_array n vs) u e = inr (typed-HasType t (runtime_array n vs) u e)
  ptr_shape t (runtime_map k n ps) u e = inr (typed-HasType t (runtime_map k n ps) u e)

  object_shape :
      (v u : Value A)
      → normalize object_type buffer adapt object_spec (object v) ≡ some u
      → HasShape object_spec u
  unfolding normalize HasShape
  object_shape absent u e = absurd (nothing e)
  object_shape nil_marker u e = λ a. cc
  object_shape (compiled o) u e = λ a. cc
  object_shape (struct_object b vs) u e = λ a. cc
  object_shape (alias_object b v) u e = λ a. cc
  object_shape (runtime_slice n vs) u e = absurd (nothing e)
  object_shape (runtime_array n vs) u e = absurd (nothing e)
  object_shape (runtime_map k n ps) u e = absurd (nothing e)

  -- normalize yields only values of the type that the Spec describes.
  pub normalize-HasShape :
      (s : Spec) (x : Any N A) (u : Value A)
      → normalize object_type buffer adapt s x ≡ some u
      → HasShape s u
  unfolding normalize HasShape
  normalize-HasShape (primitive_spec p) x u e = primitive-type p x u e
  normalize-HasShape (ref_spec t) (object v) u e = typed-HasType t v u e
  normalize-HasShape (slice_spec t) (object (runtime_slice n vs)) u e = (vs, slice_shape t n vs u e)
  normalize-HasShape (array_spec t n) (object (runtime_array m vs)) u e =
      let (same, len) = array_shape t m n vs u e in (vs, same, len)
  normalize-HasShape (map_spec k t) (object (runtime_map j m ps)) u e =
      (ps, map_shape k t j m ps u e)
  normalize-HasShape (ptr_spec t) (object v) u e = ptr_shape t v u e
  normalize-HasShape object_spec (object v) u e = object_shape v u e
  normalize-HasShape _ _ u e = absurd (nothing e)

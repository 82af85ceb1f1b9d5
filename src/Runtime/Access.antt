-- ===== src/Runtime/Access.antt =====
-- Get and Set of a RuntimeObject (astral/runtime_object.go) with normalize (astral/normalize.go).
-- The native Go values that are neither nil, strings, byte slices nor objects are a parameter, with
-- their conversion by Adapt.
pub mod Laws
pub mod Fields
use astral_go.Base.{
  ℕ, zero, suc, ◌+◌, ◌-◌, ◌^◌, Bool, true, false, Option, none, some, List, [], ◌∷◌, length, ltb,
  ◌==◌, if◌then◌else◌, codes, str_eq, get_elem?,
}
use astral_go.Blueprints.Spec.{
  Spec, primitive_spec, ref_spec, slice_spec, array_spec, map_spec, ptr_spec, object_spec, Field,
  Blueprint,
}
use astral_go.Runtime.Value.{
  Value, absent, nil_marker, compiled, struct_object, alias_object, runtime_slice, runtime_array,
  runtime_map, Values, end, more, count, type_of,
}

-- What a caller passes as `any`.
pub data Any (N A : Type 0) : Type 0 where
  string_value : List ℕ → Any N A
  bytes_value : List ℕ → Any N A
  object : Value A → Any N A
  other : N → Any N A

-- The index map of newRuntimeObjectAt: a name that two fields have stands for the later one.
unfoldable pub find : List Field → List ℕ → Option ℕ
find [] name = none
find (f ∷ fs) name = elim (find fs name) [
  | some i ↦ some (i + 1)
  | none ↦ if str_eq f.name name then some 0 else none
]

-- The primitives as the registry has them: `buffer name b` is the object of the string or bytes type
-- `name`, `adapt` is Adapt on the other values.
module _ {N A : Type 0} (object_type : A → List ℕ) (buffer : List ℕ → List ℕ → A)
    (adapt : N → Option (Value A)) where
  abbrev limited : List ℕ → ℕ → List ℕ → Option (Value A)
  limited name bits b =
      if ltb (2 ^ bits - 1) (length b) then none else some (compiled (buffer name b))

  unfoldable pub narrow_string : List ℕ → List ℕ → Option (Value A)
  narrow_string name s =
      if str_eq name (codes "string8")
      then limited name 8 s
      else if str_eq name (codes "string16")
      then limited name 16 s
      else if str_eq name (codes "string32")
      then limited name 32 s
      else if str_eq name (codes "string64")
      then some (compiled (buffer name s))
      else none

  unfoldable pub narrow_bytes : List ℕ → List ℕ → Option (Value A)
  narrow_bytes name b =
      if str_eq name (codes "bytes8")
      then limited name 8 b
      else if str_eq name (codes "bytes16")
      then limited name 16 b
      else if str_eq name (codes "bytes32")
      then limited name 32 b
      else if str_eq name (codes "bytes64")
      then some (compiled (buffer name b))
      else none

  -- `obj.ObjectType() != t`, on an object that is there.
  abbrev typed : List ℕ → Value A → Option (Value A)
  typed t absent = none
  typed t v = if str_eq (type_of object_type v) t then some v else none

  -- Adapt returns &Nil{} for nil, and an object as it is.
  unfoldable pub normalize_primitive : List ℕ → Any N A → Option (Value A)
  unfolding narrow_string narrow_bytes type_of
  normalize_primitive name (string_value s) = narrow_string name s
  normalize_primitive name (bytes_value b) = narrow_bytes name b
  normalize_primitive name (object absent) = typed name nil_marker
  normalize_primitive name (object v) = typed name v
  normalize_primitive name (other n) = elim (adapt n) [ none ↦ none | some v ↦ typed name v ]

  abbrev normalize_slice : List ℕ → Value A → Option (Value A)
  normalize_slice t (runtime_slice name vs) =
      if str_eq name t then some (runtime_slice name vs) else none
  normalize_slice t _ = none

  abbrev normalize_array : List ℕ → ℕ → Value A → Option (Value A)
  normalize_array t n (runtime_array name vs) =
      if count vs == n then if str_eq name t then some (runtime_array name vs) else none else none
  normalize_array t n _ = none

  abbrev normalize_map : List ℕ → List ℕ → Value A → Option (Value A)
  normalize_map k t (runtime_map key name ps) =
      if str_eq name t then if str_eq key k then some (runtime_map key name ps) else none else none
  normalize_map k t _ = none

  abbrev normalize_ptr : List ℕ → Value A → Option (Value A)
  normalize_ptr t absent = some nil_marker
  normalize_ptr t nil_marker = some nil_marker
  normalize_ptr t v = typed t v

  abbrev normalize_object : Value A → Option (Value A)
  normalize_object absent = none
  normalize_object (runtime_slice name vs) = none
  normalize_object (runtime_array name vs) = none
  normalize_object (runtime_map key name ps) = none
  normalize_object v = some v

  unfoldable pub normalize : Spec → Any N A → Option (Value A)
  unfolding normalize_primitive count
  normalize (primitive_spec p) v = normalize_primitive p v
  normalize (ref_spec t) (object v) = typed t v
  normalize (slice_spec t) (object v) = normalize_slice t v
  normalize (array_spec t n) (object v) = normalize_array t n v
  normalize (map_spec k t) (object v) = normalize_map k t v
  normalize (ptr_spec t) (object v) = normalize_ptr t v
  normalize object_spec (object v) = normalize_object v
  normalize _ _ = none

  -- What a RuntimeObject holds at an index, and the write to it.
  unfoldable pub value_at : ℕ → Values A → Option (Value A)
  value_at i end = none
  value_at zero (more v vs) = some v
  value_at (suc i) (more v vs) = value_at i vs

  unfoldable pub put_at : ℕ → Value A → Values A → Values A
  put_at i u end = end
  put_at zero u (more v vs) = more u vs
  put_at (suc i) u (more v vs) = more v (put_at i u vs)

  -- `none` is Go's nil.
  unfoldable pub get : List Field → List ℕ → Values A → Option (Value A)
  unfolding find value_at
  get fs name vs = elim (find fs name) [ none ↦ none | some i ↦ value_at i vs ]

  -- The values after Set; `none` is ErrFieldTypeMismatch. The index is one of the Blueprint's fields.
  unfoldable pub set : List Field → List ℕ → Any N A → Values A → Option (Values A)
  unfolding find normalize put_at
  set fs name x vs = elim (find fs name) [
    | none ↦ none
    | some i ↦ elim (get_elem? fs i) [
      | none ↦ none
      | some f ↦ elim (normalize f.spec x) [ none ↦ none | some u ↦ some (put_at i u vs) ]
    ]
  ]

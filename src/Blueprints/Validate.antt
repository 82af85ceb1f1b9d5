-- ===== src/Blueprints/Validate.antt =====
-- validateBlueprint and validateSpec of astral/blueprint.go. A check answers the first error, or
-- none.
pub mod Laws
use astral_go.Base.{
  ℕ, ◌+◌, Bool, true, false, ◌&&◌, ◌||◌, not, Option, none, some, List, [], ◌∷◌, ◌++◌, length, map,
  ltb, leb, ◌==◌, if◌then◌else◌, str_eq, str_comparable,
}
use astral_go.Sig.Members.{has}
use astral_go.Blueprints.Spec.{
  Spec, primitive_spec, ref_spec, slice_spec, array_spec, map_spec, ptr_spec, object_spec, Field,
  Blueprint, struct_kind, alias_kind, kind, is_allowed_primitive, is_allowed_map_key,
  max_blueprint_name_len, max_array_spec_length,
}

-- The messages that ErrBlueprintInvalid is wrapped in.
pub data Invalid : Type 0 where
  empty_type type_not_ascii type_too_long kind_ambiguous underlying_not_allowed : Invalid
  empty_field_name field_not_ascii field_too_long duplicate_field : Invalid
  self_referential : Invalid
  primitive_not_allowed empty_ref array_too_long key_not_allowed empty_ptr : Invalid

unfoldable pub is_ascii : List ℕ → Bool
is_ascii [] = true
is_ascii (c ∷ s) = (leb 0x20 c && leb c 0x7E) && is_ascii s

-- strings.ToLower on a name of ASCII bytes.
abbrev lower_char : ℕ → ℕ
lower_char c = if leb 65 c && leb c 90 then c + 32 else c

unfoldable pub to_lower : List ℕ → List ℕ
to_lower = map lower_char

unfoldable pub validate_spec : Spec → Option Invalid
validate_spec (primitive_spec p) =
    if is_allowed_primitive p then none else some primitive_not_allowed
validate_spec (ref_spec t) = if length t == 0 then some empty_ref else none
validate_spec (slice_spec t) = none
validate_spec (array_spec t n) = if ltb max_array_spec_length n then some array_too_long else none
validate_spec (map_spec k v) = if is_allowed_map_key k then none else some key_not_allowed
validate_spec (ptr_spec t) = if length t == 0 then some empty_ptr else none
validate_spec object_spec = none

-- The switch on RefSpec and PtrSpec that refuses the Blueprint's own type.
unfoldable pub is_self_referential : List ℕ → Spec → Bool
is_self_referential type_name (ref_spec t) = str_eq t type_name
is_self_referential type_name (ptr_spec t) = str_eq t type_name
is_self_referential type_name _ = false

-- The body of the loop over the fields, up to the test on `seen`.
unfoldable pub validate_name : List ℕ → Option Invalid
validate_name name =
    if length name == 0
    then some empty_field_name
    else if not (is_ascii name)
    then some field_not_ascii
    else if ltb max_blueprint_name_len (length name)
    then some field_too_long
    else none

-- `seen` holds the lower-case names so far.
unfoldable pub validate_field : List ℕ → List (List ℕ) → Field → Option Invalid
unfolding has validate_name is_self_referential validate_spec
validate_field type_name seen f = elim (validate_name f.name) [
  | some e ↦ some e
  | none ↦
      if has (to_lower f.name) seen
      then some duplicate_field
      else if is_self_referential type_name f.spec
      then some self_referential
      else validate_spec f.spec
]

unfoldable pub validate_fields : List ℕ → List (List ℕ) → List Field → Option Invalid
unfolding validate_field
validate_fields type_name seen [] = none
validate_fields type_name seen (f ∷ fs) = elim (validate_field type_name seen f) [
  | some e ↦ some e
  | none ↦ validate_fields type_name (to_lower f.name ∷ seen) fs
]

unfoldable pub validate_blueprint : Blueprint → Option Invalid
unfolding validate_fields
validate_blueprint bp =
    if length bp.type_name == 0
    then some empty_type
    else if not (is_ascii bp.type_name)
    then some type_not_ascii
    else if ltb max_blueprint_name_len (length bp.type_name)
    then some type_too_long
    else if not (length bp.underlying == 0) && not (length bp.fields == 0)
    then some kind_ambiguous
    else elim (kind bp) [
      | alias_kind ↦
          if is_allowed_primitive bp.underlying then none else some underlying_not_allowed
      | struct_kind ↦ validate_fields bp.type_name [] bp.fields
    ]

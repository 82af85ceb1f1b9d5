-- ===== src/Blueprints/Validate/Laws.antt =====
-- What validateBlueprint accepts, against a description of a well-formed Blueprint.
use astral_go.Base.{
  ℕ, ◌≤◌, ◌<◌, ◌≡◌, refl, ◌↔◌, ◌⊎◌, true, false, none, List, [], ◌∷◌, length, map, arith, All,
  str_eq_iff, str_comparable,
}
use mathlib.Core.Logic.{◌≢◌}
use astral_go.Sig.Members.{has, Nodup, eq_sym}
use astral_go.Blueprints.Spec.{
  Spec, primitive_spec, ref_spec, slice_spec, array_spec, map_spec, ptr_spec, object_spec, Field,
  Blueprint, kind, is_allowed_primitive, is_allowed_map_key,
}
use astral_go.Blueprints.Validate.{
  is_ascii, to_lower, validate_spec, is_self_referential, validate_name, validate_field,
  validate_fields, validate_blueprint,
}

IsPrintable : ℕ → Type 0
IsPrintable c = (32 ≤ c) × (c ≤ 126)

-- A name that the registry keeps.
pub IsName : List ℕ → Type 0
IsName n = (0 < length n) × (length n ≤ 255) × All IsPrintable n

pub IsSoundSpec : List ℕ → Spec → Type 0
IsSoundSpec type_name (primitive_spec p) = is_allowed_primitive p ≡ true
IsSoundSpec type_name (ref_spec t) = (0 < length t) × (t ≢ type_name)
IsSoundSpec type_name (slice_spec t) = Unit
IsSoundSpec type_name (array_spec t n) = n ≤ 65536
IsSoundSpec type_name (map_spec k v) = is_allowed_map_key k ≡ true
IsSoundSpec type_name (ptr_spec t) = (0 < length t) × (t ≢ type_name)
IsSoundSpec type_name object_spec = Unit

IsSoundField : List ℕ → Field → Type 0
IsSoundField type_name f = IsName f.name × IsSoundSpec type_name f.spec

folded_names : List Field → List (List ℕ)
folded_names = map (λ f. to_lower f.name)

is_ascii_iff : (n : List ℕ) → (is_ascii n ≡ true) ↔ All IsPrintable n
unfolding is_ascii IsPrintable
is_ascii_iff [] = (λ h. tt, λ h. refl)
is_ascii_iff (c ∷ s) = ground (arith, is_ascii_iff s)

validate_name_iff : (n : List ℕ) → (validate_name n ≡ none) ↔ IsName n
unfolding validate_name IsName
validate_name_iff n = ground (arith, is_ascii_iff n)

spec_iff :
    (t : List ℕ) (s : Spec)
    → ((is_self_referential t s ≡ false) × (validate_spec s ≡ none)) ↔ IsSoundSpec t s
unfolding validate_spec is_self_referential IsSoundSpec
spec_iff t (primitive_spec p) = ground arith
spec_iff t (ref_spec u) = ground (arith, str_eq_iff u t)
spec_iff t (slice_spec u) = ground arith
spec_iff t (array_spec u n) = ground arith
spec_iff t (map_spec k v) = ground arith
spec_iff t (ptr_spec u) = ground (arith, str_eq_iff u t)
spec_iff t object_spec = ground arith

-- The fields are sound, and their folded names are new and differ from each other.
FieldsSound : List ℕ → List (List ℕ) → List Field → Type 0
FieldsSound t seen fs =
    All (IsSoundField t) fs
    × All (λ n. has n seen ≡ false) (folded_names fs)
    × Nodup (folded_names fs)

field_iff :
    (t : List ℕ) (seen : List (List ℕ)) (f : Field)
    → (validate_field t seen f ≡ none) ↔ (IsSoundField t f × (has (to_lower f.name) seen ≡ false))
unfolding validate_field IsSoundField
field_iff t seen f = ground (arith, validate_name_iff f.name, spec_iff t f.spec)

pull :
    (n : List ℕ) (seen ns : List (List ℕ))
    → All (λ m. has m (n ∷ seen) ≡ false) ns
      ↔ ((has n ns ≡ false) × All (λ m. has m seen ≡ false) ns)
unfolding has
pull n seen [] = ground arith
pull n seen (m ∷ ns) = ground (arith, pull n seen ns, eq_sym n m)

fields_iff :
    (t : List ℕ) (seen : List (List ℕ)) (fs : List Field)
    → (validate_fields t seen fs ≡ none) ↔ FieldsSound t seen fs
unfolding validate_fields FieldsSound folded_names
fields_iff t seen [] = ground arith
fields_iff t seen (f ∷ fs) = ground (
  arith,
  field_iff t seen f,
  fields_iff t (to_lower f.name ∷ seen) fs,
  pull (to_lower f.name) seen (folded_names fs),
)

-- What a registered Blueprint is: an alias of an allowed primitive, or a struct with sound fields.
pub IsWellFormed : Blueprint → Type 0
IsWellFormed bp =
    IsName bp.type_name
    × (((0 < length bp.underlying)
          × (length bp.fields ≡ 0)
          × (is_allowed_primitive bp.underlying ≡ true))
        ⊎ ((length bp.underlying ≡ 0) × FieldsSound bp.type_name [] bp.fields))

-- validateBlueprint accepts a Blueprint exactly where it is well formed: its Type is a name of 1 to
-- 255 printable ASCII bytes, and it is either an alias without fields of an allowed primitive or a
-- struct whose fields have such names, which differ also in lower case, and sound Specs.
pub validate_blueprint_iff : (bp : Blueprint) → (validate_blueprint bp ≡ none) ↔ IsWellFormed bp
unfolding validate_blueprint IsWellFormed kind IsName FieldsSound
validate_blueprint_iff bp =
    ground (arith, is_ascii_iff bp.type_name, fields_iff bp.type_name [] bp.fields)

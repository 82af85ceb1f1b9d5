-- ===== src/Blueprints/Registry.antt =====
-- The registry of astral/blueprints.go: Blueprints with its Parent chain, Add, RegisterBlueprint and
-- the lookups, over the map of sig/map.go. The prototypes of compile-time types are a parameter.
pub mod Laws
pub mod Calls
use astral_go.Base.{
  ℕ, Bool, true, false, ◌||◌, Option, none, some, List, [], ◌∷◌, ◌==◌, length, if◌then◌else◌, codes,
  str_eq, str_comparable,
}
use astral_go.Sig.Map.{Entries, get, set_new}
use astral_go.Blueprints.Spec.{
  Spec, Field, Blueprint, struct_kind, alias_kind, kind, referenced_type,
}
use astral_go.Blueprints.Validate.{Invalid, validate_blueprint}

-- What the map holds under a name. A *Blueprint that stands under another name than its Type is the
-- prototype of Blueprint itself, and such a prototype is an object like the others.
pub data Entry (A : Type 0) : Type 0 where
  prototype : A → Entry A
  registered : Blueprint → Entry A

abbrev pub Level : Type 0 → Type 0
Level A = Entries (List ℕ) (Entry A)

-- The entries of a registry, then those of its Parent and so on.
abbrev pub Chain : Type 0 → Type 0
Chain A = List (Level A)

pub data RegisterError : Type 0 where
  invalid : Invalid → RegisterError
  already_registered : List ℕ → RegisterError
  unregistered_reference : List ℕ → RegisterError
  underlying_not_reachable : RegisterError
  empty_object_type populated_blueprint : RegisterError

module _ {A : Type 0} where
  -- The entry that a name resolves to, with the registry that has it.
  unfoldable pub resolve : List ℕ → Chain A → Option (Chain A × Entry A)
  resolve name [] = none
  resolve name (entries ∷ parents) =
      let parent = resolve name parents in
      elim (get name entries) [ some e ↦ some (entries ∷ parents, e) | none ↦ parent ]

  unfoldable pub is_registered : List ℕ → Chain A → Bool
  is_registered name [] = false
  is_registered name (entries ∷ parents) =
      let parent = is_registered name parents in
      elim (get name entries) [ some e ↦ true | none ↦ parent ]

  unfoldable pub get_blueprint_ref : List ℕ → Chain A → Option Blueprint
  unfolding resolve
  get_blueprint_ref name chain = elim (resolve name chain) [
    | none ↦ none
    | some (at, prototype o) ↦ none
    | some (at, registered b) ↦ if str_eq b.type_name name then some b else none
  ]

  unfoldable pub is_runtime_blueprint_type : Chain A → List ℕ → Bool
  unfolding get_blueprint_ref
  is_runtime_blueprint_type chain name =
      if length name == 0
      then false
      else elim (get_blueprint_ref name chain) [ some b ↦ true | none ↦ false ]

  unfoldable pub validate_references : Chain A → List Field → Option RegisterError
  unfolding is_registered
  validate_references chain [] = none
  validate_references chain (f ∷ fs) =
      let rest = validate_references chain fs in
      let name = referenced_type f.spec in
      if length name == 0 || is_registered name chain
      then rest
      else some (unregistered_reference name)

  -- The checks of RegisterBlueprint, in order.
  unfoldable pub check_blueprint : Chain A → Blueprint → Option RegisterError
  unfolding validate_references
  check_blueprint chain b = elim (validate_blueprint b) [
    | some e ↦ some (invalid e)
    | none ↦
        if is_registered b.type_name chain
        then some (already_registered b.type_name)
        else elim (kind b) [
          | struct_kind ↦ validate_references chain b.fields
          | alias_kind ↦
              if is_registered b.underlying chain then none else some underlying_not_reachable
        ]
  ]

  -- The local entries after the call, and its error. The ObjectID returned is not part of it.
  unfoldable pub register_blueprint : Chain A → Blueprint → Level A → Level A × Option RegisterError
  unfolding check_blueprint
  register_blueprint parents b entries = elim (check_blueprint (entries ∷ parents) b) [
    | some e ↦ (entries, some e)
    | none ↦
        let (entries', stored, ok) = set_new b.type_name (registered b) entries in
        if ok then (entries', none) else (entries', some (already_registered b.type_name))
  ]

  -- Add: the checks on all objects, then the insertions up to the first failure. `object_type` is
  -- the method, and `is_populated` tells a Blueprint with a Type.
  module _ (object_type : A → List ℕ) (is_populated : A → Bool) where
    unfoldable pub add_check : List A → Option RegisterError
    add_check [] = none
    add_check (o ∷ os) =
        let rest = add_check os in
        if length (object_type o) == 0
        then some empty_object_type
        else if is_populated o
        then some populated_blueprint
        else rest

    unfoldable pub add_loop : Chain A → List A → Level A → Level A × Option RegisterError
    unfolding is_registered
    add_loop parents [] entries = (entries, none)
    add_loop parents (o ∷ os) entries =
        let name = object_type o in
        let added = set_new name (prototype o) entries in
        let rest = add_loop parents os added.0 in
        if is_registered name (entries ∷ parents)
        then (entries, some (already_registered name))
        else if added.2
        then rest
        else (added.0, some (already_registered name))

    unfoldable pub add : Chain A → List A → Level A → Level A × Option RegisterError
    unfolding add_check add_loop
    add parents os entries = elim (add_check os) [
      | some e ↦ (entries, some e)
      | none ↦ add_loop parents os entries
    ]

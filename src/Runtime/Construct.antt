-- ===== src/Runtime/Construct.antt =====
-- The construction of runtime values: newAt and New (astral/blueprints.go), newRuntimeObjectAt and
-- specZeroAtErr (astral/runtime_object.go), with the budget of astral/build_budget.go. The
-- recursion is on fuel; `stuck` is fuel used up.
pub mod Laws
pub mod Ends
use astral_go.Base.{
  ℕ, zero, suc, ◌+◌, ◌-◌, Bool, true, false, ◌&&◌, Option, none, some, List, [], ◌∷◌, ltb, ◌==◌,
  length, if◌then◌else◌,
}
use astral_go.Wire.Ledger.{max_blueprint_depth}
use astral_go.Blueprints.Spec.{
  Spec, primitive_spec, ref_spec, slice_spec, array_spec, map_spec, ptr_spec, object_spec, Field,
  Blueprint, struct_kind, alias_kind, kind, is_allowed_map_key, max_blueprint_nodes,
}
use astral_go.Blueprints.Validate.{validate_blueprint}
use astral_go.Blueprints.Registry.{
  Entry, prototype, registered, Chain, resolve, is_runtime_blueprint_type,
}
use astral_go.Runtime.Value.{
  Value, absent, nil_marker, compiled, struct_object, alias_object, runtime_slice, runtime_array,
  runtime_map, Values, end, more, Pairs, no_pairs, absents,
}

-- What a construction returns, with the frames that its budget has left; `absent` where the Go
-- function returns nil without an error. `exceeded` is ErrDepthExceeded.
pub data Built (T : Type 0) : Type 0 where
  built : T → ℕ → Built T
  exceeded : Built T
  stuck : Built T

-- buildBudget.take: what is left after a frame, where there is one.
unfoldable pub take_frame : ℕ → Option ℕ
take_frame zero = none
take_frame (suc left) = some left

-- One level of fuel for each depth, and one for a primitive below the deepest.
abbrev pub construct_fuel : ℕ
construct_fuel = max_blueprint_depth + 3

module _ {A : Type 0} where
  -- `bps.New` drops the error, and the caller's budget is not charged.
  unfoldable pub restart : ℕ → Built (Value A) → Built (Value A)
  restart left (built v n) = built v left
  restart left exceeded = built absent left
  restart left stuck = stuck

  -- resolveElemType, without the reflect.Type: whether there is one.
  unfoldable pub resolve_elem_type : Chain A → List ℕ → Bool
  resolve_elem_type chain t =
      if length t == 0
      then true
      else if is_runtime_blueprint_type chain t
      then true
      else elim (resolve t chain) [ none ↦ false | some e ↦ true ]

  abbrev pub put_field : Value A → Built (Values A) → Built (Values A)
  put_field v (built vs n) = built (more v vs) n
  put_field v exceeded = exceeded
  put_field v stuck = stuck

  abbrev pub bind_object : Blueprint → Built (Values A) → Built (Value A)
  bind_object bp (built vs n) = built (struct_object bp vs) n
  bind_object bp exceeded = exceeded
  bind_object bp stuck = stuck

  -- The alias branch: without a value for the primitive, newAt answers nil.
  abbrev pub bind_alias : Blueprint → Built (Value A) → Built (Value A)
  bind_alias bp (built absent n) = built absent n
  bind_alias bp (built v n) = built (alias_object bp v) n
  bind_alias bp exceeded = exceeded
  bind_alias bp stuck = stuck

  -- `new_at` is newAt with the fuel that is left.
  module _ (new_at : Chain A → List ℕ → ℕ → ℕ → Built (Value A)) (chain : Chain A) where
    unfoldable pub spec_zero_at : Spec → ℕ → ℕ → Built (Value A)
    unfolding restart resolve_elem_type
    spec_zero_at (primitive_spec p) depth left = restart left (new_at chain p 0 max_blueprint_nodes)
    spec_zero_at (ref_spec t) depth left = new_at chain t depth left
    spec_zero_at (slice_spec t) depth left =
        built (if resolve_elem_type chain t then runtime_slice t end else absent) left
    spec_zero_at (array_spec t n) depth left =
        built (if resolve_elem_type chain t then runtime_array t (absents n) else absent) left
    spec_zero_at (map_spec k t) depth left =
        built
          (if is_allowed_map_key k && resolve_elem_type chain t
            then runtime_map k t no_pairs
            else absent)
          left
    spec_zero_at (ptr_spec t) depth left = built nil_marker left
    spec_zero_at object_spec depth left = built nil_marker left

    unfoldable pub zero_fields : List Field → ℕ → ℕ → Built (Values A)
    unfolding spec_zero_at
    zero_fields [] depth left = built end left
    zero_fields (f ∷ fs) depth left = elim (spec_zero_at f.spec depth left) [
      | built v left' ↦ put_field v (zero_fields fs depth left')
      | exceeded ↦ exceeded
      | stuck ↦ stuck
    ]

    -- newRuntimeObjectAt as newAt sees it: an error other than ErrDepthExceeded is nil.
    unfoldable pub new_runtime_object_at : Blueprint → ℕ → ℕ → Built (Value A)
    unfolding zero_fields restart
    new_runtime_object_at bp depth budget =
        if ltb max_blueprint_depth depth then exceeded else elim (take_frame budget) [
          | none ↦ exceeded
          | some left ↦ elim (validate_blueprint bp) [
            | some e ↦ built absent left
            | none ↦ elim (kind bp) [
              | alias_kind ↦
                  bind_alias bp (restart left (new_at chain bp.underlying 0 max_blueprint_nodes))
              | struct_kind ↦ bind_object bp (zero_fields bp.fields (depth + 1) left)
            ]
          ]
        ]

  -- New: the object, or none for nil.
  abbrev pub found : Built (Value A) → Option (Value A)
  found (built absent n) = none
  found (built v n) = some v
  found exceeded = none
  found stuck = none

  module _ (fresh : A → A) where
    unfoldable pub new_at : ℕ → Chain A → List ℕ → ℕ → ℕ → Built (Value A)
    unfolding new_runtime_object_at
    new_at zero chain name depth budget = stuck
    new_at (suc fuel) chain name depth budget = elim (resolve name chain) [
      | none ↦ built absent budget
      | some (at, prototype o) ↦ built (compiled (fresh o)) budget
      | some (at, registered b) ↦ new_runtime_object_at (new_at fuel) at b depth budget
    ]

    unfoldable pub new : Chain A → List ℕ → Option (Value A)
    unfolding new_at
    new chain name = found (new_at construct_fuel chain name 0 max_blueprint_nodes)

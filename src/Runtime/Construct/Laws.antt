-- ===== src/Runtime/Construct/Laws.antt =====
-- The construction of runtime values: that it ends, and how many objects it makes.
use astral_go.Base.{
  ℕ, zero, suc, ◌+◌, ◌≤◌, ◌≡◌, refl, ap, ◌≢◌, true, none, some, List, [], ◌∷◌, ◌⊎◌, arith,
  Option-cases, inl, inr, str_comparable,
}
use mathlib.Core.Path.{subst}
use astral_go.Sig.Map.{get}
use astral_go.Blueprints.Spec.{
  Spec, primitive_spec, ref_spec, slice_spec, array_spec, map_spec, ptr_spec, object_spec, Field,
  Blueprint, struct_kind, alias_kind, kind, is_allowed_primitive, max_blueprint_nodes,
}
use astral_go.Blueprints.Validate.{
  validate_blueprint, validate_fields, validate_field, validate_spec, to_lower,
}
use astral_go.Blueprints.Registry.{Entry, registered, Chain, resolve}
use astral_go.Runtime.Value.{
  Value, absent, nil_marker, compiled, struct_object, alias_object, runtime_slice, runtime_array,
  runtime_map, Values, end, more, absents,
}
use astral_go.Runtime.Construct.{
  Built, built, exceeded, stuck, restart, put_field, bind_object, bind_alias, spec_zero_at,
  zero_fields,
}

pub same_entry : {T : Type 0} {a b : T} → some a ≡ some b → a ≡ b
same_entry r = cc

module _ {A : Type 0} where
  -- The runtime objects that a value is made of.
  unfoldable mutual
    pub nodes : Value A → ℕ
    nodes (struct_object bp vs) = suc (nodes_of vs)
    nodes (alias_object bp v) = suc (nodes v)
    nodes (runtime_slice t vs) = nodes_of vs
    nodes (runtime_array t vs) = nodes_of vs
    nodes _ = 0

    pub nodes_of : Values A → ℕ
    nodes_of end = 0
    nodes_of (more v vs) = nodes v + nodes_of vs

  -- No registry of the chain has a runtime Blueprint under the name of a primitive.
  abbrev pub IsGrounded : Chain A → Type 0
  IsGrounded [] = Unit
  IsGrounded (entries ∷ parents) =
      ((p : List ℕ) (b : Blueprint)
        → is_allowed_primitive p ≡ true
        → get p entries ≢ some (registered b))
      × IsGrounded parents

  pub resolve-IsGrounded :
      (name : List ℕ) (chain at : Chain A) (e : Entry A)
      → IsGrounded chain
      → resolve name chain ≡ some (at, e)
      → IsGrounded at
  unfolding resolve
  resolve-IsGrounded name [] at e h r = cc
  resolve-IsGrounded name (entries ∷ parents) at e h r = elim (Option-cases (get name entries)) [
    | inl c ↦ resolve-IsGrounded name parents at e h.1 (rw (c, resolve) at r)
    | inr (d, c) ↦ subst IsGrounded (ap (λ p. p.0) (same_entry (rw (c, resolve) at r))) h
  ]

  pub resolve_primitive :
      (p : List ℕ) (chain at : Chain A) (b : Blueprint)
      → IsGrounded chain
      → is_allowed_primitive p ≡ true
      → resolve p chain ≢ some (at, registered b)
  unfolding resolve
  resolve_primitive p [] at b h a r = cc
  resolve_primitive p (entries ∷ parents) at b h a r = elim (Option-cases (get p entries)) [
    | inl c ↦ resolve_primitive p parents at b h.1 a (rw (c, resolve) at r)
    | inr (d, c) ↦ ground (arith, c, r, h.0 p b a)
  ]

  -- A construction that has not run out of fuel, and has stayed within its budget.
  unfoldable pub Within : ℕ → Built (Value A) → Type 0
  Within budget (built v left) = nodes v + left ≤ budget
  Within budget exceeded = Unit
  Within budget stuck = ⊥

  pub WithinAll : ℕ → Built (Values A) → Type 0
  WithinAll budget (built vs left) = nodes_of vs + left ≤ budget
  WithinAll budget exceeded = Unit
  WithinAll budget stuck = ⊥

  -- A construction that makes no runtime object.
  unfoldable pub IsFlat : Built (Value A) → Type 0
  IsFlat (built v left) = nodes v ≡ 0
  IsFlat exceeded = Unit
  IsFlat stuck = ⊥

  pub restart-Within : (left : ℕ) (o : Built (Value A)) → IsFlat o → Within left (restart left o)
  unfolding restart Within IsFlat
  restart-Within left (built v n) h = omega arith
  restart-Within left exceeded h = unfold nodes in omega arith
  restart-Within left stuck h = h

  nodes_of-absents : (n : ℕ) {vs : Values A} → vs ≡ absents n → nodes_of vs ≡ 0
  unfolding nodes absents
  nodes_of-absents zero e = rw e refl
  nodes_of-absents (suc n) e = rw e (omega (arith, nodes_of-absents n refl))

  put_field-Within :
      (v : Value A) (o : Built (Values A)) (left budget : ℕ)
      → nodes v + left ≤ budget
      → WithinAll left o
      → WithinAll budget (put_field v o)
  unfolding WithinAll nodes
  put_field-Within v (built vs n) left budget h w = omega arith
  put_field-Within v exceeded left budget h w = tt
  put_field-Within v stuck left budget h w = w

  pub bind_object-Within :
      (bp : Blueprint) (o : Built (Values A)) (left : ℕ)
      → WithinAll left o
      → Within (suc left) (bind_object bp o)
  unfolding WithinAll Within nodes
  bind_object-Within bp (built vs n) left w = omega arith
  bind_object-Within bp exceeded left w = tt
  bind_object-Within bp stuck left w = w

  pub bind_alias-Within :
      (bp : Blueprint) (o : Built (Value A)) (left : ℕ)
      → Within left o
      → Within (suc left) (bind_alias bp o)
  unfolding Within nodes
  bind_alias-Within bp (built absent n) left w = omega arith
  bind_alias-Within bp (built nil_marker n) left w = omega arith
  bind_alias-Within bp (built (compiled o) n) left w = omega arith
  bind_alias-Within bp (built (struct_object b vs) n) left w = omega arith
  bind_alias-Within bp (built (alias_object b v) n) left w = omega arith
  bind_alias-Within bp (built (runtime_slice t vs) n) left w = omega arith
  bind_alias-Within bp (built (runtime_array t vs) n) left w = omega arith
  bind_alias-Within bp (built (runtime_map k t ps) n) left w = omega arith
  bind_alias-Within bp exceeded left w = tt
  bind_alias-Within bp stuck left w = w

  module _ (new_at : Chain A → List ℕ → ℕ → ℕ → Built (Value A)) (chain : Chain A) (depth : ℕ)
      (primitives : (p : List ℕ) (d n : ℕ)
        → is_allowed_primitive p ≡ true
        → IsFlat (new_at chain p d n))
      (references : (t : List ℕ) (n : ℕ) → Within n (new_at chain t depth n)) where
    spec_zero_at-Within :
        (s : Spec) (left : ℕ)
        → validate_spec s ≡ none
        → Within left (spec_zero_at new_at chain s depth left)
    unfolding spec_zero_at validate_spec
    spec_zero_at-Within (primitive_spec p) left h =
        restart-Within left _ (primitives p 0 max_blueprint_nodes (ground (arith, h)))
    spec_zero_at-Within (ref_spec t) left h = references t left
    spec_zero_at-Within (slice_spec t) left h = unfold Within nodes in ground arith
    spec_zero_at-Within (array_spec t n) left h =
        unfold Within nodes in ground (arith, nodes_of-absents n {vs = absents n} refl)
    spec_zero_at-Within (map_spec k t) left h = unfold Within nodes in ground arith
    spec_zero_at-Within (ptr_spec t) left h = unfold Within nodes in ground arith
    spec_zero_at-Within object_spec left h = unfold Within nodes in ground arith

    fields_valid :
        (type_name : List ℕ) (seen : List (List ℕ)) (f : Field) (fs : List Field)
        → validate_fields type_name seen (f ∷ fs) ≡ none
        → (validate_spec f.spec ≡ none)
          × (validate_fields type_name (to_lower f.name ∷ seen) fs ≡ none)
    unfolding validate_fields validate_field
    fields_valid type_name seen f fs h = ground (arith, h)

    fields_step :
        (o : Built (Value A)) (rest : ℕ → Built (Values A)) (left : ℕ)
        → Within left o
        → ((n : ℕ) → WithinAll n (rest n))
        → WithinAll left
            (elim o [ built v n ↦ put_field v (rest n) | exceeded ↦ exceeded | stuck ↦ stuck ])
    unfolding Within WithinAll
    fields_step (built v n) rest left w h = put_field-Within v (rest n) n left w (h n)
    fields_step exceeded rest left w h = tt
    fields_step stuck rest left w h = w

    pub zero_fields-Within :
        (type_name : List ℕ) (fs : List Field) (seen : List (List ℕ)) (left : ℕ)
        → validate_fields type_name seen fs ≡ none
        → WithinAll left (zero_fields new_at chain fs depth left)
    unfolding zero_fields
    zero_fields-Within type_name [] seen left h = unfold WithinAll nodes in omega arith
    zero_fields-Within type_name (f ∷ fs) seen left h =
        let (valid, others) = fields_valid type_name seen f fs h in
        fields_step (spec_zero_at new_at chain f.spec depth left)
          (λ n. zero_fields new_at chain fs depth n) left (spec_zero_at-Within f.spec left valid)
          (λ n. zero_fields-Within type_name fs (to_lower f.name ∷ seen) n others)

pub blueprint_valid :
    (bp : Blueprint)
    → validate_blueprint bp ≡ none
    → ((kind bp ≡ alias_kind) × (is_allowed_primitive bp.underlying ≡ true))
      ⊎ ((kind bp ≡ struct_kind) × (validate_fields bp.type_name [] bp.fields ≡ none))
unfolding validate_blueprint
blueprint_valid bp h = ground (arith, h)

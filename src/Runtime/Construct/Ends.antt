-- ===== src/Runtime/Construct/Ends.antt =====
-- The fuel and the budget of a construction of astral/runtime_object.go.
use astral_go.Base.{
  ℕ, zero, suc, ◌+◌, ◌≤◌, ◌≡◌, refl, ◌≢◌, true, none, some, List, [], ◌∷◌, arith, sym, ap, codes,
  Bool-cases, Option-cases, inl, inr, ltb,
}
use astral_go.Wire.Ledger.{max_blueprint_depth}
use astral_go.Blueprints.Spec.{
  Blueprint, referenced_type, primitive_spec, kind, is_allowed_primitive, max_blueprint_nodes,
}
use astral_go.Sig.Map.{get, assign, set_new}
use astral_go.Blueprints.Validate.{validate_blueprint, is_ascii}
use astral_go.Blueprints.Registry.{prototype, registered, Level, Chain, resolve, register_blueprint}
use astral_go.Runtime.Value.{
  Value, absent, nil_marker, compiled, struct_object, alias_object, runtime_slice, runtime_array,
  runtime_map,
}
use astral_go.Runtime.Construct.{
  Built, built, exceeded, stuck, take_frame, restart, bind_object, put_field, spec_zero_at,
  zero_fields, new_runtime_object_at, new_at, construct_fuel, found, new,
}
use astral_go.Runtime.Construct.Laws.{
  same_entry, nodes, IsGrounded, resolve-IsGrounded, resolve_primitive, Within, IsFlat,
  zero_fields-Within, blueprint_valid, bind_alias-Within, bind_object-Within, restart-Within,
}

-- A struct under the name uint8, with one field of the primitive uint8.
abbrev pub squatter : Blueprint
squatter = record {
  type_name = codes "uint8";
  fields = record { name = codes "f"; spec = primitive_spec (codes "uint8") } ∷ [];
  underlying = [];
}

frame : (budget left : ℕ) → take_frame budget ≡ some left → budget ≡ suc left
unfolding take_frame
frame zero left h = cc
frame (suc n) left h = ground (arith, h)

abbrev squatted : {A : Type 0} → Level A
squatted = (codes "uint8", registered squatter) ∷ []

module _ {A : Type 0} (fresh : A → A) where
  new_at_primitive :
      (fuel : ℕ) (chain : Chain A) (p : List ℕ) (d n : ℕ)
      → IsGrounded chain
      → is_allowed_primitive p ≡ true
      → IsFlat (new_at fresh (suc fuel) chain p d n)
  unfolding new_at IsFlat nodes
  new_at_primitive fuel chain p d n g a = elim (Option-cases (resolve p chain)) [
    | inl c ↦ rw (c, new_at) refl
    | inr ((at, prototype o), c) ↦ rw (c, new_at) refl
    | inr ((at, registered b), c) ↦ absurd (resolve_primitive p chain at b g a c)
  ]

  module _ (rec : Chain A → List ℕ → ℕ → ℕ → Built (Value A)) (chain : Chain A) (depth : ℕ)
      (prim : (p : List ℕ) (d n : ℕ) → is_allowed_primitive p ≡ true → IsFlat (rec chain p d n))
      (sub : depth ≤ 64 → (t : List ℕ) (n : ℕ) → Within n (rec chain t (depth + 1) n)) where
    new_runtime_object_at-Within :
        (b : Blueprint) (budget : ℕ)
        → Within budget (new_runtime_object_at rec chain b depth budget)
    unfolding new_runtime_object_at take_frame Within nodes
    new_runtime_object_at-Within b budget = elim (Bool-cases (ltb max_blueprint_depth depth)) [
      | inl deep ↦ rw deep tt
      | inr c ↦ rw c (elim (Option-cases (take_frame budget)) [
        | inl spent ↦ rw spent tt
        | inr (left, t) ↦
            let one : budget ≡ suc left = frame budget left t in
            rw (t, one)
              (elim (Option-cases (validate_blueprint b)) [
                | inr (e, v) ↦ rw v (omega arith)
                | inl v ↦ rw v (elim (blueprint_valid b v) [
                  | inl (k, a) ↦ rw k (
                      bind_alias-Within b _ left
                        (restart-Within left _ (prim b.underlying 0 max_blueprint_nodes a)))
                  | inr (k, fs) ↦ rw k (
                      bind_object-Within b _ left (
                        zero_fields-Within rec chain (depth + 1) prim (sub (ground (arith, c)))
                          b.type_name b.fields [] left fs))
                ])
              ])
      ])
    ]

  -- As long as the fuel and the depth are enough together, a construction neither runs out of fuel
  -- nor exceeds its budget.
  new_at-Within :
      (fuel : ℕ) (chain : Chain A) (name : List ℕ) (depth budget : ℕ)
      → IsGrounded chain
      → depth ≤ 65
      → 67 ≤ fuel + depth
      → Within budget (new_at fresh fuel chain name depth budget)
  unfolding new_at
  new_at-Within zero chain name depth budget g d f = absurd (omega arith)
  new_at-Within (suc zero) chain name depth budget g d f = absurd (omega arith)
  new_at-Within (suc (suc fuel)) chain name depth budget g d f =
      elim (Option-cases (resolve name chain)) [
        | inl c ↦ rw (c, new_at) (unfold Within nodes in omega arith)
        | inr ((at, prototype o), c) ↦ rw (c, new_at) (unfold Within nodes in omega arith)
        | inr ((at, registered b), c) ↦
            let g' = resolve-IsGrounded name chain at (registered b) g c in
            rw (c, new_at)
              (new_runtime_object_at-Within (new_at fresh (suc fuel)) at depth
                (λ p d n a. new_at_primitive fuel at p d n g' a)
                (λ low t n.
                  new_at-Within (suc fuel) at t (depth + 1) n g' (omega arith) (omega arith))
                b budget)
      ]

  Within-stuck : (budget : ℕ) (o : Built (Value A)) → Within budget o → o ≢ stuck
  unfolding Within
  Within-stuck budget (built v n) w e = cc
  Within-stuck budget exceeded w e = cc
  Within-stuck budget stuck w e = w

  -- Where no runtime Blueprint stands under the name of a primitive, the fuel of New is enough for
  -- every registry, cyclic references included: a construction always ends.
  pub new_at-ne-stuck :
      (chain : Chain A) (name : List ℕ)
      → IsGrounded chain
      → new_at fresh construct_fuel chain name 0 max_blueprint_nodes ≢ stuck
  new_at-ne-stuck chain name g =
      Within-stuck max_blueprint_nodes _ (
        new_at-Within construct_fuel chain name 0 max_blueprint_nodes g (omega arith) (omega arith))

  found-Within :
      (budget : ℕ) (o : Built (Value A)) (v : Value A)
      → Within budget o
      → found o ≡ some v
      → nodes v ≤ budget
  unfolding Within
  found-Within budget (built absent n) v w e = cc
  found-Within budget (built nil_marker n) v w e = rw (sym (same_entry e)) (omega arith)
  found-Within budget (built (compiled o) n) v w e = rw (sym (same_entry e)) (omega arith)
  found-Within budget (built (struct_object b vs) n) v w e = rw (sym (same_entry e)) (omega arith)
  found-Within budget (built (alias_object b u) n) v w e = rw (sym (same_entry e)) (omega arith)
  found-Within budget (built (runtime_slice t vs) n) v w e = rw (sym (same_entry e)) (omega arith)
  found-Within budget (built (runtime_array t vs) n) v w e = rw (sym (same_entry e)) (omega arith)
  found-Within budget (built (runtime_map k t ps) n) v w e = rw (sym (same_entry e)) (omega arith)
  found-Within budget exceeded v w e = cc
  found-Within budget stuck v w e = cc

  -- Where no runtime Blueprint stands under the name of a primitive, an object that New returns is
  -- made of at most 4096 runtime objects.
  pub new-nodes :
      (chain : Chain A) (name : List ℕ) (v : Value A)
      → IsGrounded chain
      → new fresh chain name ≡ some v
      → nodes v ≤ 4096
  unfolding new
  new-nodes chain name v g e =
      found-Within max_blueprint_nodes _ v
        (new_at-Within construct_fuel chain name 0 max_blueprint_nodes g (omega arith)
          (omega arith))
        e

  squatter_accepted : register_blueprint {A = A} [] squatter [] ≡ (squatted, none)
  unfolding register_blueprint validate_blueprint is_ascii kind is_allowed_primitive get
      referenced_type set_new assign
  squatter_accepted = refl

  squatted_step :
      (rec : Chain A → List ℕ → ℕ → ℕ → Built (Value A))
      → rec (squatted ∷ []) (codes "uint8") 0 max_blueprint_nodes ≡ stuck
      → new_runtime_object_at rec (squatted ∷ []) squatter 0 max_blueprint_nodes ≡ stuck
  unfolding new_runtime_object_at take_frame validate_blueprint is_ascii kind is_allowed_primitive
      zero_fields spec_zero_at restart
  squatted_step rec h =
      ap
        (λ o. bind_object squatter (elim (restart 4095 o) [
          | built v n ↦ put_field v (zero_fields rec (squatted ∷ []) [] 1 n)
          | exceeded ↦ exceeded
          | stuck ↦ stuck
        ]))
        h

  squatted_stuck :
      (fuel : ℕ) → new_at fresh fuel (squatted ∷ []) (codes "uint8") 0 max_blueprint_nodes ≡ stuck
  unfolding new_at resolve get
  squatted_stuck zero = refl
  squatted_stuck (suc fuel) = squatted_step (new_at fresh fuel) (squatted_stuck fuel)

  -- A registry without a parent takes a struct Blueprint under the name of a primitive, with a
  -- field of this primitive; then no fuel is enough for the construction of its value.
  pub new_at-squatted :
      (fuel : ℕ)
      → ((register_blueprint {A = A} [] squatter []).1 ≡ none)
        × (new_at fresh fuel
              ((register_blueprint {A = A} [] squatter []).0 ∷ [])
              (codes "uint8")
              0
              max_blueprint_nodes
            ≡ stuck)
  new_at-squatted fuel = rw squatter_accepted (refl, squatted_stuck fuel)

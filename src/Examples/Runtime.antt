-- ===== src/Examples/Runtime.antt =====
-- Examples for blueprints and runtime objects: a registry with one primitive and two struct types.
use astral_go.Base.{
  ℕ, suc, ◌<◌, ◌≤◌, ◌↔◌, ◌≡◌, ◌≢◌, refl, ap, sym, ◌∙◌, true, false, Option, none, some, List, [],
  ◌∷◌, ◌++◌, codes, get_elem?, arith, Bool-cases, inl, inr, ◌=?◌, str_comparable,
}
use astral_go.Sig.Members.{eq→≡, has}
use astral_go.Sig.Map.{get}
use astral_go.Wire.Reads.{Reads}
use astral_go.Wire.Writes.{Writes}
use astral_go.Astral.Fixed.{big_endian, write_fixed, read_fixed}
use astral_go.Astral.Fixed.Laws.{Writes-write_fixed, Reads-read_fixed}
use astral_go.Blueprints.Spec.{
  Blueprint, Field, primitive_allowlist, max_blueprint_nodes, primitive_spec, ref_spec, slice_spec,
  object_spec, is_allowed_primitive, kind,
}
use astral_go.Blueprints.Validate.{validate_blueprint, is_ascii, to_lower}
use astral_go.Blueprints.Registry.{
  Entry, Level, Chain, prototype, registered, resolve, register_blueprint, is_registered,
  is_runtime_blueprint_type,
}
use astral_go.Runtime.Value.{
  Prototypes, Value, absent, nil_marker, compiled, struct_object, runtime_slice, Values, end, more,
  type_of, count,
}
use astral_go.Runtime.Construct.{
  new_at, construct_fuel, stuck, new, take_frame, restart, spec_zero_at, resolve_elem_type,
}
use astral_go.Runtime.Construct.Laws.{IsGrounded, nodes}
use astral_go.Runtime.Construct.Ends.{new_at-ne-stuck, new-nodes, squatter, new_at-squatted}
use astral_go.Runtime.Access.{Any, string_value, set, find, normalize, put_at, narrow_string}
use astral_go.Runtime.Access
use astral_go.Runtime.Access.Laws.{nothing, HasShape}
use astral_go.Runtime.Access.Fields.{HaveShapes, get-set, set-HaveShapes}
use astral_go.Runtime.Write.{write_value}
use astral_go.Runtime.Read.{read_object}
use astral_go.Runtime.RoundTrip.Objects.{read_object-write_value}
use astral_go.Blueprints.Registry.Laws.{IsSound}
use astral_go.Blueprints.Registry.Calls.{
  register, add_all, calls, calls-IsSound, register_blueprint_primitive,
}
use astral_go.Blueprints.Validate.Laws.{IsWellFormed, validate_blueprint_iff}
use astral_go.Astral.Sized.{w8}
use astral_go.Astral.Sized.Laws.{sized}
use astral_go.Runtime.Coded.{
  HasCodec, Coded, coded_compiled, coded_struct, no_fields, field, primitive_field, ref_field,
  no_object_field, slice_field, no_slots, slot, absent_pointer, object_pointer,
}

-- A single primitive: an object is a byte, of the type uint8.
abbrev bytes_only : Prototypes
bytes_only = record {
  Object = ℕ;
  object_type = λ o. codes "uint8";
  fresh = λ o. 0;
  write_to = λ o. write_fixed 1 o;
  read_from = λ o. read_fixed 1;
  elem_write_to = λ o. write_fixed 1 o;
  elem_read_from = λ o. read_fixed 1;
}

abbrev inner : Blueprint
inner = record {
  type_name = codes "inner";
  fields = record { name = codes "a"; spec = primitive_spec (codes "uint8") } ∷ [];
  underlying = [];
}

abbrev outer : Blueprint
outer = record {
  type_name = codes "outer";
  fields =
      record { name = codes "x"; spec = ref_spec (codes "inner") }
      ∷ record { name = codes "list"; spec = slice_spec (codes "inner") }
      ∷ record { name = codes "any"; spec = object_spec }
      ∷ [];
  underlying = [];
}

abbrev entries : Level ℕ
entries =
    (codes "uint8", prototype 0)
    ∷ (codes "inner", registered inner)
    ∷ (codes "outer", registered outer)
    ∷ []

abbrev registry : Chain ℕ
registry = entries ∷ []

abbrev inner_of : ℕ → Value ℕ
inner_of n = struct_object inner (more (compiled n) end)

abbrev sample : Value ℕ
sample = struct_object outer (
    more (inner_of 7) (
      more (runtime_slice (codes "inner") (more (inner_of 9) (more absent end)))
        (more nil_marker end)))

abbrev fresh_outer : Value ℕ
fresh_outer =
    struct_object outer
      (more (inner_of 0) (more (runtime_slice (codes "inner") end) (more nil_marker end)))

new_outer : new (λ o. 0) registry (codes "outer") ≡ some fresh_outer
unfolding new take_frame validate_blueprint is_ascii kind is_allowed_primitive get spec_zero_at
    restart resolve_elem_type is_runtime_blueprint_type to_lower
new_outer = refl

new_inner : new (λ o. 0) registry (codes "inner") ≡ some (inner_of 0)
unfolding new take_frame validate_blueprint is_ascii kind is_allowed_primitive get spec_zero_at
    restart resolve
new_inner = refl

new_uint8 : new (λ o. 0) registry (codes "uint8") ≡ some (compiled 0)
unfolding new get resolve
new_uint8 = refl

byte_codec : (n : ℕ) → n < 256 → HasCodec bytes_only 0 n 0 (big_endian 1 n)
byte_codec n h = record {
  frames_written = 0;
  frames_read = 0;
  elem_frames_written = 0;
  elem_frames_read = 0;
  writes = Writes-write_fixed 1 n;
  reads = Reads-read_fixed 1 n h;
  elem_writes = Writes-write_fixed 1 n;
  elem_reads = Reads-read_fixed 1 n h;
}

prototype_only :
    {b : Blueprint} → ◌≢◌ {A = Option (Entry ℕ)} (some (prototype 0)) (some (registered b))
prototype_only e = cc

registry-IsGrounded : IsGrounded registry
unfolding get is_allowed_primitive
registry-IsGrounded = (
  λ p b a e. elim (Bool-cases (p =? codes "uint8")) [
    | inl c ↦ prototype_only (rw c at e)
    | inr c ↦ elim (Bool-cases (p =? codes "inner")) [
      | inl d ↦ not_allowed (sym (ap is_allowed_primitive (eq→≡ p (codes "inner") d)) ∙ a)
      | inr d ↦ elim (Bool-cases (p =? codes "outer")) [
        | inl f ↦ not_allowed (sym (ap is_allowed_primitive (eq→≡ p (codes "outer") f)) ∙ a)
        | inr f ↦ nothing (rw (c, d, f) at e)
      ]
    ]
  ],
  tt,
)
  where
    not_allowed : false ≢ true
    not_allowed e = cc

inner_of-Coded :
    (n k : ℕ) → k < 256 → Coded bytes_only 0 registry (suc n) (inner_of k) (big_endian 1 k ++ [])
unfolding type_of
inner_of-Coded n k h =
    coded_struct new_inner
      (field (primitive_field (coded_compiled new_uint8 (byte_codec k h))) no_fields)

sample-Coded : Coded bytes_only 0 registry 2 sample (
    (big_endian 1 7 ++ [])
    ++ ((big_endian 4 2 ++ ((big_endian 1 1 ++ (big_endian 1 9 ++ [])) ++ (big_endian 1 0 ++ [])))
        ++ (sized w8 [] ++ [])))
unfolding resolve_elem_type is_runtime_blueprint_type resolve get count type_of
sample-Coded = coded_struct new_outer (
    field (ref_field (inner_of-Coded 0 7 (omega arith))) (
      field
        (slice_field refl (omega arith) (
          slot (object_pointer {v = inner_of 9} refl tt (inner_of-Coded 0 9 (omega arith)))
            (slot (absent_pointer refl) no_slots)))
        (field no_object_field no_fields)))

read_object-write_value_example :
    (f : ℕ) × (g : ℕ) × (z : Value ℕ) × (new (λ o. 0) registry (codes "outer") ≡ some z)
    × Writes 8 f (write_value bytes_only sample) (0x7 ∷ 0 ∷ 0 ∷ 0 ∷ 2 ∷ 1 ∷ 9 ∷ 0 ∷ 0 ∷ [])
    × Reads 8 g
        (read_object bytes_only 66 registry z)
        (0x7 ∷ 0 ∷ 0 ∷ 0 ∷ 2 ∷ 1 ∷ 9 ∷ 0 ∷ 0 ∷ [])
        sample
unfolding big_endian type_of
read_object-write_value_example =
    read_object-write_value bytes_only 0 registry 66 sample-Coded (omega arith)

new_at-ne-stuck_example :
    new_at (λ o. 0) construct_fuel registry (codes "outer") 0 max_blueprint_nodes ≢ stuck
new_at-ne-stuck_example = new_at-ne-stuck (λ o. 0) registry (codes "outer") registry-IsGrounded

new-nodes_example : nodes fresh_outer ≤ 4096
new-nodes_example =
    new-nodes (λ o. 0) registry (codes "outer") fresh_outer registry-IsGrounded new_outer

new_at-squatted_example :
    ((register_blueprint {A = ℕ} [] squatter []).1 ≡ none)
    × (new_at {A = ℕ}
          (λ o. 0)
          5
          ((register_blueprint [] squatter []).0 ∷ [])
          (codes "uint8")
          0
          max_blueprint_nodes
        ≡ stuck)
new_at-squatted_example = new_at-squatted {A = ℕ} (λ o. 0) 5

calls-IsSound_example : IsSound {A = ℕ} [] (
    calls
      (λ o. codes "uint8")
      (λ o. false)
      []
      (add_all (0 ∷ []) ∷ register inner ∷ register outer ∷ register inner ∷ [])
      [])
calls-IsSound_example =
    calls-IsSound {A = ℕ} (λ o. codes "uint8") (λ o. false) []
      (add_all (0 ∷ []) ∷ register inner ∷ register outer ∷ register inner ∷ [])

validate_blueprint_iff_example : (validate_blueprint outer ≡ none) ↔ IsWellFormed outer
validate_blueprint_iff_example = validate_blueprint_iff outer

-- All primitives, registered.
primitives : List (List ℕ) → Level ℕ
primitives [] = []
primitives (p ∷ ps) = (p, prototype 0) ∷ primitives ps

abbrev all_primitives : Level ℕ
all_primitives = primitives primitive_allowlist

primitives-is_registered :
    (p : List ℕ) (ps : List (List ℕ))
    → has p ps ≡ true
    → is_registered p (primitives ps ∷ []) ≡ true
unfolding has is_registered get primitives
primitives-is_registered p [] h = cc
primitives-is_registered p (q ∷ ps) h = elim (Bool-cases (p =? q)) [
  | inl c ↦ rw (c, is_registered) refl
  | inr c ↦ rw (c, is_registered) (primitives-is_registered p ps (rw c at h))
]

primitives_free :
    (ps : List (List ℕ)) (p : List ℕ) (c : Blueprint) → get p (primitives ps) ≢ some (registered c)
unfolding get primitives
primitives_free [] p c e = cc
primitives_free (q ∷ ps) p c e = elim (Bool-cases (p =? q)) [
  | inl d ↦ prototype_only (rw d at e)
  | inr d ↦ primitives_free ps p c (rw d at e)
]

register_blueprint_primitive_example :
    get (codes "uint8") (register_blueprint [] squatter all_primitives).0
    ≢ some (registered squatter)
unfolding is_allowed_primitive
register_blueprint_primitive_example =
    register_blueprint_primitive [] squatter all_primitives
      (λ p a. primitives-is_registered p primitive_allowlist a)
      (λ p c a. primitives_free primitive_allowlist p c) (codes "uint8") squatter refl

-- Objects as a type name and the bytes of a buffer.
abbrev Buffer : Type 0
Buffer = List ℕ × List ℕ

abbrev fields : List Field
fields =
    record { name = codes "a"; spec = primitive_spec (codes "string8") }
    ∷ record { name = codes "b"; spec = object_spec }
    ∷ []

abbrev before : Values Buffer
before = more (compiled (codes "string8", [])) (more nil_marker end)

abbrev after : Values Buffer
after = more (compiled (codes "string8", codes "hi")) (more nil_marker end)

abbrev set_buffer : List Field → List ℕ → Any ⊥ Buffer → Values Buffer → Option (Values Buffer)
set_buffer = set (λ o. o.0) (λ n b. (n, b)) (λ n. absurd n)

abbrev get_buffer : List Field → List ℕ → Values Buffer → Option (Value Buffer)
get_buffer = Access.get {N = ⊥} (λ o. o.0) (λ n b. (n, b)) (λ n. absurd n)

before_after : set_buffer fields (codes "a") (string_value (codes "hi")) before ≡ some after
unfolding set find normalize put_at narrow_string
before_after = refl

get-set_example :
    ((i : ℕ) × (f : Field) × (find fields (codes "a") ≡ some i)
      × (get_elem? fields i ≡ some f)
      × (get_buffer fields (codes "a") after
          ≡ normalize {N = ⊥} {A = Buffer}
              (λ o. o.0)
              (λ n b. (n, b))
              (λ n. absurd n)
              f.spec
              (string_value (codes "hi"))))
    × ((other : List ℕ)
        → find fields other ≢ find fields (codes "a")
        → get_buffer fields other after ≡ get_buffer fields other before)
unfolding count
get-set_example =
    get-set {N = ⊥} {A = Buffer} (λ o. o.0) (λ n b. (n, b)) (λ n. absurd n) fields (codes "a")
      (string_value (codes "hi")) before after refl before_after

before-HaveShapes :
    HaveShapes {N = ⊥} {A = Buffer}
      (λ o. o.0)
      (λ n b. (n, b))
      (λ n. absurd n)
      (λ n b. refl)
      fields
      before
unfolding HaveShapes HasShape type_of
before-HaveShapes = (refl, (λ e. cc, tt))

set-HaveShapes_example :
    HaveShapes {N = ⊥} {A = Buffer}
      (λ o. o.0)
      (λ n b. (n, b))
      (λ n. absurd n)
      (λ n b. refl)
      fields
      after
set-HaveShapes_example =
    set-HaveShapes {N = ⊥} {A = Buffer} (λ o. o.0) (λ n b. (n, b)) (λ n. absurd n) (λ n b. refl)
      fields (codes "a") (string_value (codes "hi")) before after before-HaveShapes before_after

-- ===== src/Blueprints/Listing.antt =====
-- OrderedBlueprints and AllBlueprints of astral/blueprints.go with classify, orderProtoNames and
-- appendByName. `is_alias` tells a prototype that is a PrimitiveAlias; `blueprint_of` is BlueprintOf,
-- the reflection on a Go type, with `none` for its error.
pub mod Names
pub mod Loop
pub mod Acyclic
pub mod All
use astral_go.Base.{
  ℕ, Bool, true, false, ◌||◌, not, Option, none, some, List, [], ◌∷◌, ◌++◌, map, if◌then◌else◌,
  str_eq, str_comparable, bytes_before,
}
use astral_go.Sig.Members.{has}
use astral_go.Sig.Map.{Entries, get, assign, clone}
use astral_go.Blueprints.Spec.{Blueprint, struct_kind, alias_kind, kind, is_allowed_primitive}
use astral_go.Blueprints.Order.{Outcome, done, out_of_fuel, sort_strings, order_by_reference}
use astral_go.Blueprints.Registry.{Entry, prototype, registered, Level, Chain}

pub data EntryKind : Type 0 where
  kind_struct_proto : EntryKind
  kind_runtime_bp : Blueprint → EntryKind
  kind_alias_proto : EntryKind

-- The names that orderBlueprintsByReference returns, and its error. It never runs out of fuel.
unfoldable pub names_of : Outcome → List (List ℕ)
names_of (done out err) = out
names_of out_of_fuel = []

unfoldable pub cycle_of : Outcome → Option (List (List ℕ))
cycle_of (done out err) = err
cycle_of out_of_fuel = none

-- The loop over what the parent returns: each name once.
unfoldable pub once : List (List ℕ) → List (List ℕ) → List (List ℕ)
unfolding has
once [] out = out
once (n ∷ ns) out = once ns (if has n out then out else out ++ (n ∷ []))

pub record Buckets (A : Type 0) : Type 0 where
  pub proto : Level A
  pub aliases : List (List ℕ)
  pub runtime : List Blueprint

abbrev pub no_buckets : {A : Type 0} → Buckets A
no_buckets = record { proto = []; aliases = []; runtime = [] }

module _ {A : Type 0} (is_alias : A → Bool) where
  unfoldable pub classify : List ℕ → Entry A → EntryKind
  classify name (registered b) =
      if str_eq b.type_name name then kind_runtime_bp b else kind_struct_proto
  classify name (prototype o) = if is_alias o then kind_alias_proto else kind_struct_proto

  unfoldable pub place : List ℕ → Entry A → Buckets A → Buckets A
  unfolding classify
  place name e k = elim (classify name e) [
    | kind_runtime_bp b ↦ elim (kind b) [
      | alias_kind ↦ record k { aliases = k.aliases ++ (name ∷ []) }
      | struct_kind ↦ record k { runtime = k.runtime ++ (b ∷ []) }
    ]
    | kind_alias_proto ↦ record k { aliases = k.aliases ++ (name ∷ []) }
    | kind_struct_proto ↦ record k { proto = k.proto ++ ((name, e) ∷ []) }
  ]

  -- The loop over the local entries, less those that a parent has.
  unfoldable pub bucket : List (List ℕ) → Level A → Buckets A → Buckets A
  unfolding place has
  bucket seen [] k = k
  bucket seen ((name, e) ∷ rest) k = bucket seen rest (if has name seen then k else place name e k)

module _ {A : Type 0} (blueprint_of : Entry A → Option Blueprint) where
  unfoldable pub derive : Level A → List (List ℕ) × List Blueprint
  derive [] = ([], [])
  derive ((name, e) ∷ rest) =
      let (leaves, derived) = derive rest in
      elim (blueprint_of e) [ none ↦ (name ∷ leaves, derived) | some b ↦ (leaves, b ∷ derived) ]

  unfoldable pub order_proto_names : Level A → List (List ℕ) × List (List ℕ)
  unfolding derive names_of
  order_proto_names proto =
      let (leaves, derived) = derive proto in
      (sort_strings leaves, names_of (order_by_reference derived))

module _ {A : Type 0} (is_alias : A → Bool) (blueprint_of : Entry A → Option Blueprint) where
  unfoldable pub ordered_blueprints : Chain A → List (List ℕ)
  unfolding once bucket order_proto_names
  ordered_blueprints [] = []
  ordered_blueprints (entries ∷ parents) =
      let out = once (ordered_blueprints parents) [] in
      let k = bucket is_alias out entries no_buckets in
      let (leaves, structs) = order_proto_names blueprint_of k.proto in
      out
      ++ (leaves
          ++ (sort_strings k.aliases ++ (structs ++ names_of (order_by_reference k.runtime))))

-- ===== src/Blueprints/Listing/All.antt =====
-- AllBlueprints and appendByName of astral/blueprints.go.
pub mod Names
pub mod Described
pub mod Once
use astral_go.Base.{
  ℕ, Bool, Option, none, some, List, [], ◌∷◌, ◌++◌, if◌then◌else◌, ◌=?◌, str_comparable,
  bytes_before,
}
use astral_go.Sig.Members.{has}
use astral_go.Sig.Map.{Entries, get, assign}
use astral_go.Blueprints.Spec.{Blueprint, struct_kind, alias_kind, kind, is_allowed_primitive}
use astral_go.Blueprints.Order.{order_by_reference}
use astral_go.Blueprints.Registry.{Entry, Level, Chain}
use astral_go.Blueprints.Listing.{
  kind_struct_proto, kind_runtime_bp, kind_alias_proto, classify, names_of, cycle_of,
}

pub data ListError : Type 0 where
  alias_underived : List ℕ → ListError
  blueprint_underived : List ℕ → ListError
  blueprint_cycle : List (List ℕ) → ListError

pub record Listed : Type 0 where
  pub out : List Blueprint
  pub errs : List ListError

pub record Collected : Type 0 where
  pub aliases : List Blueprint
  pub proto : List Blueprint
  pub runtime : List Blueprint
  pub errs : List ListError

-- The map from type names, and the loop over the names; the last Blueprint of a name counts.
unfoldable pub index_blueprints :
    List Blueprint → Entries (List ℕ) Blueprint → Entries (List ℕ) Blueprint
unfolding assign
index_blueprints [] index = index
index_blueprints (b ∷ bps) index = index_blueprints bps (assign b.type_name b index)

unfoldable pub append_named :
    Entries (List ℕ) Blueprint → List (List ℕ) → List Blueprint → List Blueprint
unfolding get
append_named index [] out = out
append_named index (n ∷ ns) out =
    append_named index ns (elim (get n index) [ some b ↦ out ++ (b ∷ []) | none ↦ out ])

unfoldable pub append_by_name : List Blueprint → List Blueprint → List (List ℕ) → List Blueprint
unfolding index_blueprints append_named
append_by_name out bps names = append_named (index_blueprints bps []) names out

-- The first Blueprint of each name, for the runtime ones.
unfoldable pub first_named : List ℕ → List Blueprint → List Blueprint
first_named n [] = []
first_named n (b ∷ bps) = let rest = first_named n bps in if b.type_name =? n then b ∷ [] else rest

unfoldable pub append_runtime : List (List ℕ) → List Blueprint → List Blueprint → List Blueprint
unfolding first_named
append_runtime [] runtime out = out
append_runtime (n ∷ ns) runtime out = append_runtime ns runtime (out ++ first_named n runtime)

-- sort.Slice by type name.
unfoldable pub insert_blueprint : Blueprint → List Blueprint → List Blueprint
insert_blueprint b [] = b ∷ []
insert_blueprint b (c ∷ cs) =
    let rest = insert_blueprint b cs in
    if bytes_before c.type_name b.type_name then c ∷ rest else b ∷ c ∷ cs

unfoldable pub sort_blueprints : List Blueprint → List Blueprint
unfolding insert_blueprint
sort_blueprints [] = []
sort_blueprints (b ∷ bps) = insert_blueprint b (sort_blueprints bps)

-- The loop over what the parent returns, with the set of the names seen.
unfoldable pub inherit :
    List Blueprint → List Blueprint → List (List ℕ) → List Blueprint × List (List ℕ)
unfolding has
inherit [] out seen = (out, seen)
inherit (b ∷ bps) out seen =
    let skipped = inherit bps out seen in
    let kept = inherit bps (out ++ (b ∷ [])) (seen ++ (b.type_name ∷ [])) in
    if has b.type_name seen then skipped else kept

unfoldable pub cycle_errors : Option (List (List ℕ)) → List ListError
cycle_errors none = []
cycle_errors (some stuck) = blueprint_cycle stuck ∷ []

module _ {A : Type 0} (is_alias : A → Bool) (blueprint_of : Entry A → Option Blueprint) where
  unfoldable pub collect : List ℕ → Entry A → Collected → Collected
  unfolding classify is_allowed_primitive
  collect name e k = elim (classify is_alias name e) [
    | kind_runtime_bp b ↦ elim (kind b) [
      | alias_kind ↦ record k { aliases = k.aliases ++ (b ∷ []) }
      | struct_kind ↦ record k { runtime = k.runtime ++ (b ∷ []) }
    ]
    | kind_alias_proto ↦ elim (blueprint_of e) [
      | none ↦ record k { errs = k.errs ++ (alias_underived name ∷ []) }
      | some d ↦ record k { aliases = k.aliases ++ (d ∷ []) }
    ]
    | kind_struct_proto ↦ elim (blueprint_of e) [
      | none ↦
          if is_allowed_primitive name
          then k
          else record k { errs = k.errs ++ (blueprint_underived name ∷ []) }
      | some d ↦ record k { proto = k.proto ++ (d ∷ []) }
    ]
  ]

  unfoldable pub collect_all : List (List ℕ) → Level A → Collected → Collected
  unfolding collect has
  collect_all seen [] k = k
  collect_all seen ((name, e) ∷ rest) k =
      collect_all seen rest (if has name seen then k else collect name e k)

  unfoldable pub all_blueprints : Chain A → Listed
  unfolding inherit collect_all sort_blueprints append_by_name append_runtime names_of cycle_of
      cycle_errors
  all_blueprints [] = record { out = []; errs = [] }
  all_blueprints (entries ∷ parents) =
      let above = all_blueprints parents in
      let (out, seen) = inherit above.out [] [] in
      let k =
        collect_all seen entries
          (record { aliases = []; proto = []; runtime = []; errs = above.errs }) in
      let protos = order_by_reference k.proto in
      let ordered = order_by_reference k.runtime in
      record {
        out =
            append_runtime (names_of ordered) k.runtime
              (append_by_name (out ++ sort_blueprints k.aliases) k.proto (names_of protos));
        errs = k.errs ++ (cycle_errors (cycle_of protos) ++ cycle_errors (cycle_of ordered));
      }

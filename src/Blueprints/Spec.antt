-- ===== src/Blueprints/Spec.antt =====
-- The descriptors of astral/blueprint.go and of the files of the seven Spec carriers, with the two
-- allowlists. A name is the list of its bytes.
use astral_go.Base.{
  ◌≡◌, ◌⊎◌, arith, ℕ, Bool, List, [], ◌∷◌, ◌^◌, length, ◌==◌, if◌then◌else◌, codes, str_comparable,
}
use astral_go.Sig.Members.{has}

pub data Spec : Type 0 where
  primitive_spec : List ℕ → Spec
  ref_spec : List ℕ → Spec
  slice_spec : List ℕ → Spec
  array_spec : List ℕ → ℕ → Spec
  map_spec : List ℕ → List ℕ → Spec
  ptr_spec : List ℕ → Spec
  object_spec : Spec

pub record Field : Type 0 where
  pub name : List ℕ
  pub spec : Spec

pub record Blueprint : Type 0 where
  pub type_name : List ℕ
  pub fields : List Field
  pub underlying : List ℕ

pub data BlueprintKind : Type 0 where
  struct_kind alias_kind : BlueprintKind

unfoldable pub kind : Blueprint → BlueprintKind
kind bp = if length bp.underlying == 0 then struct_kind else alias_kind

pub kind-cases : (bp : Blueprint) → (kind bp ≡ struct_kind) ⊎ (kind bp ≡ alias_kind)
unfolding kind
kind-cases bp = ground arith

-- The name that a Spec depends on; the empty name for none.
unfoldable pub referenced_type : Spec → List ℕ
referenced_type (primitive_spec t) = []
referenced_type (ref_spec t) = t
referenced_type (slice_spec t) = t
referenced_type (array_spec t n) = t
referenced_type (map_spec k v) = v
referenced_type (ptr_spec t) = t
referenced_type object_spec = []

abbrev pub primitive_allowlist : List (List ℕ)
primitive_allowlist =
    codes "string8"
    ∷ codes "string16"
    ∷ codes "string32"
    ∷ codes "string64"
    ∷ codes "uint8"
    ∷ codes "uint16"
    ∷ codes "uint32"
    ∷ codes "uint64"
    ∷ codes "bytes8"
    ∷ codes "bytes16"
    ∷ codes "bytes32"
    ∷ codes "bytes64"
    ∷ codes "bool"
    ∷ codes "time"
    ∷ codes "identity"
    ∷ codes "object_id.sha256"
    ∷ codes "nonce64"
    ∷ codes "duration"
    ∷ codes "zone"
    ∷ []

unfoldable pub is_allowed_primitive : List ℕ → Bool
unfolding has
is_allowed_primitive name = has name primitive_allowlist

abbrev pub map_key_allowlist : List (List ℕ)
map_key_allowlist =
    codes "string16" ∷ codes "uint8" ∷ codes "uint16" ∷ codes "uint32" ∷ codes "uint64" ∷ []

unfoldable pub is_allowed_map_key : List ℕ → Bool
unfolding has
is_allowed_map_key name = has name map_key_allowlist

abbrev pub max_blueprint_name_len : ℕ
max_blueprint_name_len = 255

abbrev pub max_array_spec_length : ℕ
max_array_spec_length = 2 ^ 16

abbrev pub max_blueprint_nodes : ℕ
max_blueprint_nodes = 4096

-- ===== src/Channel/Objects.antt =====
-- What the channels need of objects: the Object interface of astral/object.go, and the registry
-- behind astral.New. The senders and receivers are defined over every such model.
use astral_go.Base.{ℕ, Option, some, List, ◌≡◌}
use astral_go.Wire.Stream.{Reader, Writer}
use astral_go.Wire.Reads.{Reads}
use astral_go.Wire.Writes.{Writes}

pub record ObjectModel : Type 1 where
  pub Object : Type 0
  pub object_type : Object → List ℕ
  pub write_to : Object → Writer
  -- `New(typeName)` and the ReadFrom of the object that it returns; `none` for nil.
  pub new : List ℕ → Option (Reader Object)

-- The objects a receiver returns: Blob for an empty type, UnparsedObject (astral/unparsed_object.go)
-- for one that the registry does not know.
pub data Received (A : Type 0) : Type 0 where
  known : A → Received A
  blob : List ℕ → Received A
  unparsed : List ℕ → List ℕ → Received A

-- An object whose payload reads back: its type is registered under a non-empty name, it writes
-- `payload`, and the registered reader takes `payload` for it.
module _ (M : ObjectModel) where
  pub record IsCodable (o : M.Object) (payload : List ℕ) : Type 0 where
    pub depth_needed : ℕ
    pub frames_needed : ℕ
    pub reader : Reader M.Object
    pub registered : M.new (M.object_type o) ≡ some reader
    pub writes : Writes depth_needed frames_needed (M.write_to o) payload
    pub reads : Reads depth_needed frames_needed reader payload o

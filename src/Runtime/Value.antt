-- ===== src/Runtime/Value.antt =====
-- Runtime values: RuntimeObject, RuntimeSlice, RuntimeArray and RuntimeMap with what they hold, over
-- the objects of compile-time types.
use astral_go.Base.{ℕ, zero, suc, List, [], codes}
use astral_go.Wire.Stream.{Reader, Writer}
use astral_go.Blueprints.Spec.{Blueprint}

-- The compile-time types that a program registers. `fresh` is reflect.New of an object's type;
-- `elem_write_to` and `elem_read_from` are the codec that objectify finds for what a pointer in a
-- container points to.
pub record Prototypes : Type 1 where
  pub Object : Type 0
  pub object_type : Object → List ℕ
  pub fresh : Object → Object
  pub write_to : Object → Writer
  pub read_from : Object → Reader Object
  pub elem_write_to : Object → Writer
  pub elem_read_from : Object → Reader Object

pub data Key : Type 0 where
  text : List ℕ → Key
  number : ℕ → Key

-- `absent` is Go's nil in a slot, `nil_marker` is &Nil{}. A RuntimeObject is of struct or alias
-- kind; a container has the name of its element type, empty for a heterogeneous one, and a map
-- the name of its key type, too. A map has its entries in the order of a loop over it.
mutual
  pub data Value (A : Type 0) : Type 0 where
    absent : Value A
    nil_marker : Value A
    compiled : A → Value A
    struct_object : Blueprint → Values A → Value A
    alias_object : Blueprint → Value A → Value A
    runtime_slice : List ℕ → Values A → Value A
    runtime_array : List ℕ → Values A → Value A
    runtime_map : List ℕ → List ℕ → Pairs A → Value A

  pub data Values (A : Type 0) : Type 0 where
    end : Values A
    more : Value A → Values A → Values A

  pub data Pairs (A : Type 0) : Type 0 where
    no_pairs : Pairs A
    pair : Key → Value A → Pairs A → Pairs A

module _ {A : Type 0} where
  unfoldable pub count : Values A → ℕ
  count end = 0
  count (more v vs) = suc (count vs)

  unfoldable pub absents : ℕ → Values A
  absents zero = end
  absents (suc n) = more absent (absents n)

  -- ObjectType of each carrier.
  unfoldable pub type_of : (A → List ℕ) → Value A → List ℕ
  type_of object_type absent = []
  type_of object_type nil_marker = codes "nil"
  type_of object_type (compiled o) = object_type o
  type_of object_type (struct_object bp vs) = bp.type_name
  type_of object_type (alias_object bp v) = bp.type_name
  type_of object_type (runtime_slice t vs) = codes "slice"
  type_of object_type (runtime_array t vs) = codes "array"
  type_of object_type (runtime_map k t ps) = codes "map"

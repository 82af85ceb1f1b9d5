-- ===== src/Bundle.antt =====
-- Bundle of astral/bundle.go, an ordered collection of distinct objects with an index of their ids,
-- over every object model; ResolveObjectID of astral/object.go and the WriteResolver of
-- astral/object_resolver.go. SHA-256 is a parameter; the mutex makes each call one step.
pub mod Laws
pub mod Members
pub mod RoundTrip
pub mod Untyped
use astral_go.Base.{
  ℕ, zero, suc, ◌%◌, ◌^◌, Bool, true, false, Option, none, some, ◌⊎◌, inl, inr, List, [], ◌∷◌, ◌++◌,
  length, ◌==◌, if◌then◌else◌, get_elem?, str_comparable,
}
use astral_go.Wire.Out.{
  Error, Out, ok, fail, ◌>>=◌, ◌>>◌, pure, raise, duplicate_object, unresolved_object,
}
use astral_go.Wire.Stream.{Source, Sink, Reader, Writer, framed_read, framed_write}
use astral_go.Wire.Reads.{source}
use astral_go.Wire.Writes.{sink}
use astral_go.Astral.Fixed.{write_fixed, read_fixed}
use astral_go.Astral.Sized.{w8, w32, write_string, write_bytes, read_bytes}
use astral_go.Astral.Header.{write_stamp, write_object_type, short_type_decoder}
use astral_go.Astral.ObjectId.{ObjectId, to_string}
use astral_go.Sig.Map.{Entries, get, assign}
use astral_go.Channel.Objects.{ObjectModel}
use astral_go.Channel.Envelope.{decode}

module _ (M : ObjectModel) where
  -- What ResolveObjectID writes to the resolver; an untyped object has no header.
  unfoldable pub write_resolved : M.Object → Writer
  write_resolved o =
      let typed = write_stamp >> write_object_type (M.object_type o) in
      (if length (M.object_type o) == 0 then pure tt else typed) >> M.write_to o

  unfoldable pub resolve_object_id : (List ℕ → List ℕ) → M.Object → Option ObjectId
  unfolding write_resolved
  resolve_object_id sha256 o = elim (write_resolved o (sink [] none)) [
    | fail e n s ↦ none
    | ok _ n s ↦ some (record { size = length s.output % 2 ^ 64; hash = sha256 s.output })
  ]

-- The index is the list of its entries, from the string of an id to a position; a nil index is empty.
pub record Bundle (O : Type 0) : Type 0 where
  pub objects : List O
  pub index : Entries (List ℕ) ℕ

abbrev pub new_bundle : {O : Type 0} → Bundle O
new_bundle = record { objects = []; index = [] }

-- A body on a staging buffer that shares the ledger; its count is dropped.
unfoldable pub staged : Writer → Sink → Out Sink (List ℕ)
staged body s = elim (body (sink [] s.ledger)) [
  | ok _ n raw ↦ ok raw.output 0 (record s { ledger = raw.ledger })
  | fail e n raw ↦ fail e 0 (record s { ledger = raw.ledger })
]

-- A reader on the bytes of a member that shares the ledger; what it leaves of them is dropped.
unfoldable pub within : {A : Type 0} → List ℕ → Reader A → Reader A
within buf body s = elim (body (source buf s.ledger)) [
  | ok o n t ↦ ok o 0 (record s { ledger = t.ledger })
  | fail e n t ↦ fail e 0 (record s { ledger = t.ledger })
]

unfoldable pub or_raise : {O : Type 0} → Bundle O ⊎ Error → Reader (Bundle O)
or_raise (inl b) = pure b
or_raise (inr e) = raise e

-- ReadFrom commits at the end: the receiver after the call.
unfoldable pub received : {O : Type 0} → Out Source (Bundle O) → Bundle O → Bundle O
received (ok new n s) b = new
received (fail e n s) b = b

-- SelectByType and First, for the test that a type assertion makes.
unfoldable pub select_by_type : {O : Type 0} → (O → Bool) → List O → List O
select_by_type is_type [] = []
select_by_type is_type (o ∷ os) =
    let rest = select_by_type is_type os in if is_type o then o ∷ rest else rest

unfoldable pub first : {O : Type 0} → (O → Bool) → List O → Option O
first is_type [] = none
first is_type (o ∷ os) = let rest = first is_type os in if is_type o then some o else rest

module _ (M : ObjectModel) where
  unfoldable pub write_member : M.Object → Writer
  unfolding staged
  write_member o =
      staged (write_string w8 (M.object_type o) >> M.write_to o) >>= λ raw. write_bytes w32 raw

  unfoldable pub write_members : List M.Object → Writer
  unfolding write_member
  write_members [] = pure tt
  write_members (o ∷ os) = write_member o >> write_members os

  unfoldable pub write_bundle : Bundle M.Object → Writer
  unfolding write_members
  write_bundle b =
      framed_write (write_fixed 4 (length b.objects % 2 ^ 32) >> write_members b.objects)

module _ (M : ObjectModel) (sha256 : List ℕ → List ℕ) where
  -- appendUnique, and the method append, which does the same to the receiver.
  unfoldable pub append_unique : M.Object → Bundle M.Object → Bundle M.Object ⊎ Error
  unfolding resolve_object_id
  append_unique o b = elim (resolve_object_id M sha256 o) [
    | none ↦ inr unresolved_object
    | some id ↦ elim (get (to_string id) b.index) [
      | some i ↦ inr duplicate_object
      | none ↦ inl (record {
        objects = b.objects ++ (o ∷ []);
        index = assign (to_string id) (length b.objects) b.index;
      })
    ]
  ]

  -- Append stops at the first error and keeps what it has appended.
  unfoldable pub append : List M.Object → Bundle M.Object → Bundle M.Object × Option Error
  unfolding append_unique
  append [] b = (b, none)
  append (o ∷ os) b = elim (append_unique o b) [ inl b' ↦ append os b' | inr e ↦ (b, some e) ]

  unfoldable pub fetch : ObjectId → Bundle M.Object → Option M.Object
  fetch id b = elim (get (to_string id) b.index) [ none ↦ none | some i ↦ get_elem? b.objects i ]

  unfoldable pub read_member : Bundle M.Object → Reader (Bundle M.Object)
  unfolding within or_raise append_unique
  read_member b = read_bytes w32 >>= λ buf.
      within buf (decode M short_type_decoder) >>= λ o. or_raise (append_unique o b)

  unfoldable pub read_members : ℕ → Bundle M.Object → Reader (Bundle M.Object)
  unfolding read_member
  read_members zero b = pure b
  read_members (suc n) b = read_member b >>= λ b'. read_members n b'

  unfoldable pub read_bundle : Reader (Bundle M.Object)
  unfolding read_members
  read_bundle = framed_read (read_fixed 4 >>= λ count. read_members count new_bundle)

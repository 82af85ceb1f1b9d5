-- ===== src/Channel/Envelope.antt =====
-- Encode, Decode and EncodeBytes of astral/object.go, over every object model. The type encoder and
-- decoder of the configuration are arguments.
pub mod Laws
use astral_go.Base.{ℕ, Option, none, some, List, []}
use astral_go.Wire.Out.{stream_corrupted, Out, ok, fail, ◌>>=◌, ◌>>◌, raise, Error}
use astral_go.Wire.Stream.{Source, Sink, Reader, Writer, attach_reader, attach_writer}
use astral_go.Wire.Writes.{sink}
use astral_go.Channel.Objects.{ObjectModel}

module _ (M : ObjectModel) where
  unfoldable pub encode : (List ℕ → Writer) → M.Object → Writer
  unfolding attach_writer
  encode type_encoder o = attach_writer (type_encoder (M.object_type o) >> M.write_to o)

  -- A type without a prototype is an error that wraps ErrBlueprintNotFound.
  unfoldable pub new_and_read : List ℕ → Reader M.Object
  unfolding attach_reader
  new_and_read t = elim (M.new t) [
    | none ↦ raise stream_corrupted
    | some read_from ↦ attach_reader read_from
  ]

  unfoldable pub decode : Reader (List ℕ) → Reader M.Object
  unfolding new_and_read
  decode type_decoder = type_decoder >>= new_and_read

  unfoldable pub encode_bytes : (List ℕ → Writer) → M.Object → Option (List ℕ)
  unfolding encode
  encode_bytes type_encoder o = elim (encode type_encoder o (sink [] none)) [
    | ok a n s ↦ some s.output
    | fail e n s ↦ none
  ]

-- ===== src/Channel/Binary.antt =====
-- The binary format: astral/channel/binary_sender.go and binary_receiver.go. The transport is a
-- naked stream; each frame is a type name and a payload with a 32-bit length.
pub mod Frames
pub mod Stream
use astral_go.Base.{
  ℕ, ◌≡◌, Bool, true, false, Option, none, some, List, [], ◌∷◌, ◌++◌, ◌==◌, if◌then◌else◌, length,
}
use astral_go.Wire.Out.{
  Error, ok, fail, eof, blueprint_not_found, stream_corrupted, Out, ◌>>◌, zero_on_fail,
}
use astral_go.Wire.Stream.{Source, Sink, Reader, Writer, naked, write}
use astral_go.Wire.Writes.{sink}
use astral_go.Astral.Sized.{w8, w32, write_string, write_bytes, read_bytes}
use astral_go.Astral.Header.{read_object_type}
use astral_go.Channel.Objects.{ObjectModel, Received, known, blob, unparsed}

-- errors.Is(err, astral.ErrBlueprintNotFound): a corrupted stream wraps that error too.
abbrev pub is_blueprint_not_found : Error → Bool
is_blueprint_not_found blueprint_not_found = true
is_blueprint_not_found stream_corrupted = true
is_blueprint_not_found _ = false

-- The type and the length-prefixed payload, on a buffer of their own.
unfoldable pub frame_buffer : List ℕ → List ℕ → Out Sink (Unit {0})
frame_buffer t payload = (write_string w8 t >> write_bytes w32 payload) (sink [] none)

module _ (M : ObjectModel) where
  -- BinarySender.Send. The frame is built before anything is written.
  unfoldable pub send : M.Object → Writer
  unfolding frame_buffer
  send o s = elim (M.write_to o (sink [] none)) [
    | fail e n _ ↦ fail e 0 s
    | ok _ n payload ↦ elim (frame_buffer (M.object_type o) payload.output) [
      | fail e m _ ↦ fail e 0 s
      | ok _ m frame ↦ zero_on_fail (write frame.output s)
    ]
  ]

  unfoldable pub parse_payload : Bool → List ℕ → List ℕ → Out Source (Received M.Object)
  parse_payload allow_unparsed t buf = elim (M.new t) [
    | none ↦
        if allow_unparsed
        then ok (unparsed t buf) 0 (naked [])
        else fail blueprint_not_found 0 (naked [])
    | some read_from ↦ elim (read_from (naked buf)) [
      | ok o n rest ↦ ok (known o) n rest
      | fail e n rest ↦
          if is_blueprint_not_found e
          then (if allow_unparsed then ok (unparsed t buf) n rest else fail e n rest)
          else fail e n rest
    ]
  ]

  -- The payload is decoded from its own buffer, so what it leaves over is dropped.
  abbrev with_transport : Source → Out Source (Received M.Object) → Out Source (Received M.Object)
  with_transport s (ok o n _) = ok o n s
  with_transport s (fail e n _) = fail e n s

  unfoldable pub decode_frame : Bool → List ℕ → List ℕ → Source → Out Source (Received M.Object)
  unfolding parse_payload
  decode_frame allow_unparsed t buf s =
      if length t == 0
      then ok (blob buf) 0 s
      else with_transport s (parse_payload allow_unparsed t buf)

  -- BinaryReceiver.Receive
  unfoldable pub receive : Bool → Reader (Received M.Object)
  unfolding decode_frame
  receive allow_unparsed s = elim (read_object_type s) [
    | fail e n s' ↦ fail e n s'
    | ok t n s' ↦ elim (read_bytes w32 s') [
      | fail e m s'' ↦ fail e m s''
      | ok buf m s'' ↦ decode_frame allow_unparsed t buf s''
    ]
  ]

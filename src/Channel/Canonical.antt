-- ===== src/Channel/Canonical.antt =====
-- The canonical format: astral/channel/canonical_sender.go and canonical_receiver.go. A frame is a
-- stamp, a type name and a bare payload; the receiver latches its first error.
pub mod Laws
use astral_go.Base.{ℕ, ◌≡◌, Option, none, some, List, [], ◌⊎◌, inl, inr}
use astral_go.Wire.Out.{Error, ok, fail, stream_corrupted, Out, ◌>>◌, zero_on_fail}
use astral_go.Wire.Stream.{Source, Sink, Reader, Writer, write}
use astral_go.Wire.Writes.{sink}
use astral_go.Astral.Header.{write_stamp, write_object_type, read_stamp, read_object_type}
use astral_go.Channel.Objects.{ObjectModel}

-- `r` and `streamErr` of CanonicalReceiver.
pub record Receiver : Type 0 where
  pub transport : Source
  pub stream_err : Option Error

module _ (M : ObjectModel) where
  -- The frame on a buffer of its own.
  unfoldable pub frame_buffer : M.Object → Writer
  unfolding write_stamp
  frame_buffer o = write_stamp >> (write_object_type (M.object_type o) >> M.write_to o)

  -- CanonicalSender.Send
  unfoldable pub send : M.Object → Writer
  unfolding frame_buffer
  send o s = elim (frame_buffer o (sink [] none)) [
    | fail e n _ ↦ fail e 0 s
    | ok _ n frame ↦ zero_on_fail (write frame.output s)
  ]

  unfoldable pub read_object : List ℕ → Reader M.Object
  read_object t s = elim (M.new t) [
    | none ↦ fail stream_corrupted 0 s
    | some read_from ↦ read_from s
  ]

  unfoldable pub receive_unlatched : Reader M.Object
  unfolding read_object
  receive_unlatched s = elim (read_stamp s) [
    | fail e n s' ↦ fail e n s'
    | ok _ n s' ↦ elim (read_object_type s') [
      | fail e m s'' ↦ fail e m s''
      | ok t m s'' ↦ read_object t s''
    ]
  ]

  abbrev pub Reply : Type 0
  Reply = M.Object ⊎ Error

  abbrev latch : Out Source M.Object → Receiver × Reply
  latch (ok o n s) = (record { transport = s; stream_err = none }, inl o)
  latch (fail e n s) = (record { transport = s; stream_err = some e }, inr e)

  -- CanonicalReceiver.Receive
  unfoldable pub receive : Receiver → Receiver × Reply
  unfolding receive_unlatched
  receive r = elim r.stream_err [
    | some e ↦ (r, inr e)
    | none ↦ latch (receive_unlatched r.transport)
  ]

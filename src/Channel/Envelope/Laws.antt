-- ===== src/Channel/Envelope/Laws.antt =====
-- Encode and Decode of astral/object.go together.
use astral_go.Base.{
  ℕ, ◌+◌, ◌≤◌, ◌<◌, ◌≡◌, refl, none, some, List, ◌++◌, length, length-append, append_assoc, arith,
}
use astral_go.Wire.Out.{ok}
use astral_go.Wire.Ledger.{max_blueprint_depth, max_codec_frames, max_codec_bytes, fresh}
use astral_go.Wire.Stream.{naked, attach_reader, attach_writer}
use astral_go.Wire.Reads.{source}
use astral_go.Wire.Writes.{Writes-then, Writes-depth, Writes-frames, sink}
use astral_go.Astral.Sized.{w8}
use astral_go.Astral.Sized.Laws.{sized}
use astral_go.Astral.Header.{short_type_encoder, short_type_decoder}
use astral_go.Astral.Header.Laws.{short_header}
use astral_go.Channel.Objects.{ObjectModel, IsCodable}
use astral_go.Channel.Envelope.{encode, decode, new_and_read}

module _ (M : ObjectModel) where
  -- An object that is codable within the bounds of a codec call, whose type name is not empty and
  -- has at most 255 bytes, and whose envelope is within the bytes of a call: Encode with the short
  -- type encoder appends the type name and the payload to a naked stream, and Decode of these
  -- bytes, with any others behind them, returns the object and leaves the others.
  pub decode-encode :
      (o : M.Object) (payload out rest : List ℕ) (c : IsCodable M o payload)
      → c.depth_needed ≤ max_blueprint_depth
      → c.frames_needed ≤ max_codec_frames
      → 0 < length (M.object_type o)
      → length (M.object_type o) < 256
      → length (sized w8 (M.object_type o) ++ payload) ≤ max_codec_bytes
      → let bs = sized w8 (M.object_type o) ++ payload in
        (encode M short_type_encoder o (sink out none) ≡ ok tt (length bs) (sink (out ++ bs) none))
        × (decode M short_type_decoder (naked (bs ++ rest)) ≡ ok o (length bs) (naked rest))
  unfolding encode decode new_and_read
  decode-encode o payload out rest c hd hf ne ht hl =
      let name = sized w8 (M.object_type o) in
      let (writes, reads) = short_header (M.object_type o) ne ht in
      let total : length (name ++ payload) ≡ length name + length payload =
        length-append name payload in
      let written =
        (Writes-frames {f' = c.frames_needed} (omega arith)
            (Writes-then _ _ (Writes-depth {d' = c.depth_needed} (omega arith) writes) c.writes)).at
          out (some fresh) (omega arith) in
      let header = reads.at (payload ++ rest) none (omega arith) in
      let body = c.reads.at rest (some fresh) (omega arith) in
      let attached : attach_reader c.reader (source (payload ++ rest) none)
          ≡ ok o (length payload) (naked rest) =
        rw (body, attach_reader) refl in
      let object : new_and_read M (M.object_type o) (source (payload ++ rest) none)
          ≡ ok o (length payload) (naked rest) =
        rw (c.registered, new_and_read) attached in
      (
        rw (written, attach_writer) refl,
        rw (append_assoc name payload rest, header, object, total) refl,
      )

-- ===== src/Channel/Binary/Frames.antt =====
-- One frame of the binary format: sending and receiving it.
use astral_go.Base.{
  ℕ, ◌+◌, ◌≤◌, ◌<◌, ◌≡◌, refl, Bool, false, none, List, [], ◌++◌, append-nil, append_assoc, ◌==◌,
  length, length-append, arith,
}
use astral_go.Wire.Out.{Error, ok, fail, ◌>>◌}
use astral_go.Wire.Ledger.{max_codec_bytes, max_codec_frames, max_blueprint_depth}
use astral_go.Wire.Stream.{Sink, naked, write}
use astral_go.Wire.Writes.{Writes, Writes-then, Writes-write, sink}
use astral_go.Astral.Fixed.{big_endian}
use astral_go.Astral.Sized.{w8, w32, write_string, write_bytes}
use astral_go.Astral.Sized.Laws.{sized, Fits, Writes-write_sized, Reads-read_bytes}
use astral_go.Astral.Header.Laws.{Reads-read_object_type}
use astral_go.Channel.Objects.{ObjectModel, known, IsCodable}
use astral_go.Channel.Binary.{frame_buffer, send, receive, decode_frame, parse_payload}

-- The bytes of a frame.
abbrev pub frame : List ℕ → List ℕ → List ℕ
frame t payload = sized w8 t ++ sized w32 payload

-- A frame whose buffer the ledger of a codec call allows.
abbrev pub FrameFits : List ℕ → List ℕ → Type 0
FrameFits t payload = Fits w8 t × (length (frame t payload) ≤ max_codec_bytes)

Writes-frame :
    (t payload : List ℕ)
    → Fits w8 t
    → Fits w32 payload
    → Writes 0 0 (write_string w8 t >> write_bytes w32 payload) (frame t payload)
unfolding write_string write_bytes
Writes-frame t payload ht hp =
    Writes-then _ _ (Writes-write_sized w8 t ht) (Writes-write_sized w32 payload hp)

fits32 : (t payload : List ℕ) → FrameFits t payload → Fits w32 payload
fits32 t payload h = omega (
  arith,
  length-append (sized w8 t) (sized w32 payload),
  length-append (big_endian 4 (length payload)) payload,
)

frame_buffer-frame :
    (t payload : List ℕ)
    → FrameFits t payload
    → frame_buffer t payload ≡ ok tt (length (frame t payload)) (sink (frame t payload) none)
unfolding frame_buffer
frame_buffer-frame t payload h =
    (Writes-frame t payload h.0 (fits32 t payload h)).at [] none (omega arith)

-- Receiving the bytes of any frame takes exactly that frame from the transport, whatever comes of
-- its payload.
pub receive-frame :
    (M : ObjectModel) (allow_unparsed : Bool) (t payload rest : List ℕ)
    → FrameFits t payload
    → receive M allow_unparsed (naked (frame t payload ++ rest))
      ≡ decode_frame M allow_unparsed t payload (naked rest)
unfolding receive
receive-frame M allow_unparsed t payload rest h =
    let lengths : length (frame t payload) ≡ length (sized w8 t) + length (sized w32 payload) =
      length-append (sized w8 t) (sized w32 payload) in
    rw
      (
        append_assoc,
        (Reads-read_object_type t h.0).at (sized w32 payload ++ rest) none (omega arith),
        (Reads-read_bytes w32 payload (fits32 t payload h)).at rest none (omega arith),
        receive,
      )
      refl

-- Sending puts the frame on the transport in one write, where the object writes its payload.
pub send-frame :
    (M : ObjectModel) (o : M.Object) (payload out : List ℕ) (d f : ℕ)
    → Writes d f (M.write_to o) payload
    → d ≤ max_blueprint_depth
    → f ≤ max_codec_frames
    → FrameFits (M.object_type o) payload
    → send M o (sink out none)
      ≡ ok tt
          (length (frame (M.object_type o) payload))
          (sink (out ++ frame (M.object_type o) payload) none)
unfolding send
send-frame M o payload out d f w hd hf h =
    rw
      (
        w.at [] none (
          hd,
          hf,
          omega (
            arith,
            length-append (sized w8 (M.object_type o)) (sized w32 payload),
            length-append (big_endian 4 (length payload)) payload,
          ),
        ),
        frame_buffer-frame (M.object_type o) payload h,
        (Writes-write 0 (frame (M.object_type o) payload)).at out none (omega arith),
        send,
      )
      refl

-- A send that fails leaves the transport as it was: nothing of the frame is written.
pub send_fails :
    (M : ObjectModel) (o : M.Object) (out : List ℕ) (e : Error) (n : ℕ) (s : Sink)
    → send M o (sink out none) ≡ fail e n s
    → s ≡ sink out none
unfolding send write
send_fails M o out e n s h = ground arith

-- A registered object that was sent is received whole, and what follows its frame is left.
pub receive-send :
    (M : ObjectModel) (allow_unparsed : Bool) (o : M.Object) (payload rest : List ℕ)
    → (c : IsCodable M o payload) → c.depth_needed ≤ max_blueprint_depth
    → c.frames_needed ≤ max_codec_frames
    → 0 < length (M.object_type o)
    → FrameFits (M.object_type o) payload
    → decode_frame M allow_unparsed (M.object_type o) payload (naked rest)
      ≡ ok (known o) (length payload) (naked rest)
unfolding decode_frame
receive-send M a o payload rest c hd hf ne h =
    let named : (length (M.object_type o) == 0) ≡ false = ground arith in
    let whole = c.reads.at [] none (
      hd,
      hf,
      omega (
        arith,
        length-append (sized w8 (M.object_type o)) (sized w32 payload),
        length-append (big_endian 4 (length payload)) payload,
      ),
    ) in
    let exact = rw append-nil at whole in rw (named, c.registered, exact, parse_payload) refl

-- ===== src/Channel/Canonical/Laws.antt =====
-- Sending, receiving and errors in the canonical format (astral/channel/canonical_receiver.go).
use astral_go.Base.{
  ℕ, ◌+◌, ◌≤◌, ◌<◌, ◌≡◌, refl, ap, ◌∙◌, none, some, List, [], ◌++◌, append_assoc, length,
  length-append, arith, inl, inr, Option-cases,
}
use astral_go.Wire.Out.{Error, ok, fail, invalid_magic, Out-cases}
use astral_go.Wire.Ledger.{max_blueprint_depth, max_codec_frames, max_codec_bytes}
use astral_go.Wire.Stream.{Source, naked}
use astral_go.Wire.Reads.{source}
use astral_go.Wire.Writes.{Writes, Writes-then, Writes-depth, Writes-frames, Writes-write, sink}
use astral_go.Astral.Fixed.{read_fixed}
use astral_go.Astral.Fixed.Laws.{Writes-write_fixed}
use astral_go.Astral.Takes.{Takes-read_fixed, read_fixed_exact}
use astral_go.Astral.Sized.{w8}
use astral_go.Astral.Sized.Laws.{sized, Fits}
use astral_go.Astral.Header.{magic, read_stamp}
use astral_go.Astral.Header.Laws.{
  stamp_bytes, Reads-read_stamp, Reads-read_object_type, Writes-write_object_type,
}
use astral_go.Channel.Objects.{ObjectModel, IsCodable}
use astral_go.Channel.Canonical.{
  Receiver, frame_buffer, send, receive, receive_unlatched, read_object,
}

-- A stream of fewer than four bytes, the empty one included, is reported as invalid magic bytes.
read_stamp_short :
    (i : List ℕ)
    → length i < 4
    → (n : ℕ) × (s : Source) × (read_stamp (naked i) ≡ fail invalid_magic n s)
unfolding read_stamp
read_stamp_short i h = elim (Out-cases (read_fixed 4 (naked i))) [
  | inl (v, n, s, r) ↦
      absurd (omega (arith, (Takes-read_fixed 4).at _ v n s r, read_fixed_exact 4 _ v n s r))
  | inr (e, n, s, r) ↦ (n, s, rw (r, read_stamp) refl)
]

module _ (M : ObjectModel) where
  -- A canonical receiver on fewer than four bytes, an ended stream included, answers invalid magic
  -- bytes and latches this.
  pub receive_short :
      (i : List ℕ)
      → length i < 4
      → (r : Receiver) × (receive M (record { transport = naked i; stream_err = none })
          ≡ (r, inr invalid_magic))
        × (r.stream_err ≡ some invalid_magic)
  unfolding receive receive_unlatched
  receive_short i h =
      let (n, s, e) = read_stamp_short i h in
      let unlatched : receive_unlatched M (naked i) ≡ fail invalid_magic n s =
        rw (e, receive_unlatched) refl in
      (
        record { transport = s; stream_err = some invalid_magic },
        rw (unlatched, receive) refl,
        refl,
      )

  -- After an error a canonical receiver answers the same error and stays as it is.
  pub receive_latched :
      (r : Receiver) (r' : Receiver) (e : Error)
      → receive M r ≡ (r', inr e)
      → receive M r' ≡ (r', inr e)
  unfolding receive
  receive_latched r r' e h = elim (Option-cases r.stream_err) [
    | inr (x, latched) ↦ ground (arith, latched)
    | inl open_ ↦ elim (Out-cases (receive_unlatched M r.transport)) [
      | inl (o, n, s, u) ↦ ground (arith, open_, u)
      | inr (x, n, s, u) ↦ ground (arith, open_, u)
    ]
  ]

  Writes-frame :
      (o : M.Object) (payload : List ℕ) (c : IsCodable M o payload)
      → Fits w8 (M.object_type o)
      → Writes c.depth_needed c.frames_needed
          (frame_buffer M o)
          (stamp_bytes ++ (sized w8 (M.object_type o) ++ payload))
  unfolding frame_buffer
  Writes-frame o payload c ht = Writes-frames (omega arith) (
      Writes-then _ _ (Writes-depth (omega arith) (Writes-write_fixed 4 magic)) (
        Writes-then _ _ (Writes-depth (omega arith) (Writes-write_object_type (M.object_type o) ht))
          c.writes))

  -- A codable object within the bounds of a codec call is sent on an empty naked transport, and a
  -- canonical receiver on the bytes sent and any others reads the object and leaves the others.
  pub receive-send :
      (o : M.Object) (payload rest : List ℕ) (c : IsCodable M o payload)
      → c.depth_needed ≤ max_blueprint_depth
      → c.frames_needed ≤ max_codec_frames
      → Fits w8 (M.object_type o)
      → length (stamp_bytes ++ (sized w8 (M.object_type o) ++ payload)) ≤ max_codec_bytes
      → (n : ℕ) × (frame : List ℕ) × (send M o (sink [] none) ≡ ok tt n (sink frame none))
        × (receive M (record { transport = naked (frame ++ rest); stream_err = none })
            ≡ (record { transport = naked rest; stream_err = none }, inl o))
  unfolding send receive receive_unlatched read_object
  receive-send o payload rest c hd hf ht hl =
      let name = sized w8 (M.object_type o) in
      let bytes = stamp_bytes ++ (name ++ payload) in
      let total : length bytes ≡ length stamp_bytes + length (name ++ payload) =
        length-append stamp_bytes (name ++ payload) in
      let tail : length (name ++ payload) ≡ length name + length payload =
        length-append name payload in
      let written = (Writes-frame o payload c ht).at [] none (hd, hf, hl) in
      let split : bytes ++ rest ≡ stamp_bytes ++ (name ++ (payload ++ rest)) =
        append_assoc stamp_bytes (name ++ payload) rest
        ∙ ap (λ l. stamp_bytes ++ l) (append_assoc name payload rest) in
      let object_read : read_object M (M.object_type o) (source (payload ++ rest) none)
          ≡ ok o (length payload) (naked rest) =
        rw (c.registered, read_object) (c.reads.at rest none (hd, hf, omega arith)) in
      let unlatched : receive_unlatched M (naked (bytes ++ rest))
          ≡ ok o (length payload) (naked rest) =
        rw
          (
            split,
            Reads-read_stamp.at (name ++ (payload ++ rest)) none (omega arith),
            (Reads-read_object_type (M.object_type o) ht).at (payload ++ rest) none (omega arith),
            object_read,
            receive_unlatched,
          )
          refl in
      (
        length bytes,
        bytes,
        rw (written, (Writes-write 0 bytes).at [] none (omega arith), send) refl,
        rw (unlatched, receive) refl,
      )

-- ===== src/Channel/Binary/Stream.antt =====
-- A stream of binary frames: Channel.Collect (astral/channel/channel.go) over a BinaryReceiver.
use astral_go.Base.{
  ℕ, zero, suc, ◌≤◌, ◌<◌, ◌≡◌, ◌≢◌, refl, ap, ◌∙◌, Bool, none, List, [], ◌∷◌, ◌++◌, append-nil,
  append_assoc, map, length, arith, inl, inr, All,
}
use astral_go.Wire.Out.{Error, Out, ok, fail, eof, Out-cases}
use astral_go.Wire.Ledger.{max_codec_frames, max_blueprint_depth}
use astral_go.Wire.Stream.{Source, Sink, naked, read_full}
use astral_go.Wire.Writes.{sink}
use astral_go.Astral.Sized.{w32, read_bytes, read_string}
use astral_go.Astral.Fixed.{read_fixed}
use astral_go.Astral.Header.{read_object_type}
use astral_go.Astral.Takes.{Takes-read_object_type, Takes-read_bytes, read_object_type-pos}
use astral_go.Channel.Objects.{ObjectModel, Received, known, IsCodable}
use astral_go.Channel.Binary.{send, receive, decode_frame}
use astral_go.Channel.Binary.Frames.{frame, FrameFits, receive-frame, send-frame, receive-send}

-- How Collect ends: nil at io.EOF, or the error of Receive. `stuck` is no Go value: the fuel of
-- the loop ran out.
pub data Ended : Type 0 where
  clean : Ended
  failed : Error → Ended
  stuck : Ended

abbrev ended_by : Error → Ended
ended_by eof = clean
ended_by e = failed e

module _ (M : ObjectModel) (allow_unparsed : Bool) where
  -- Collect with a collector that appends to a list and returns nil.
  unfoldable pub collect : ℕ → List (Received M.Object) → Source → List (Received M.Object) × Ended
  collect zero seen s = (seen, stuck)
  collect (suc fuel) seen s = elim (receive M allow_unparsed s) [
    | ok o n s' ↦ collect fuel (seen ++ (o ∷ [])) s'
    | fail e n s' ↦ (seen, ended_by e)
  ]

  receive_shrinks :
      (s : Source) (o : Received M.Object) (n : ℕ) (s' : Source)
      → receive M allow_unparsed s ≡ ok o n s'
      → length s'.input < length s.input
  unfolding receive decode_frame
  receive_shrinks s o n s' e = elim (Out-cases (read_object_type s)) [
    | inr (x, m, u, r) ↦ ground (arith, r)
    | inl (t, m, u, r) ↦ elim (Out-cases (read_bytes w32 u)) [
      | inr (x, k, v, r') ↦ ground (arith, r, r')
      | inl (buf, k, v, r') ↦ ground (
        arith,
        r,
        r',
        read_object_type-pos s t m u r,
        Takes-read_object_type.at s t m u r,
        (Takes-read_bytes w32).at u buf k v r',
      )
    ]
  ]

  collect_step :
      (fuel : ℕ) (seen : List (Received M.Object)) (s s' : Source) (o : Received M.Object) (n : ℕ)
      → receive M allow_unparsed s ≡ ok o n s'
      → collect (suc fuel) seen s ≡ collect fuel (seen ++ (o ∷ [])) s'
  unfolding collect
  collect_step fuel seen s s' o n e = rw (e, collect) refl

  -- Collecting ends on every transport: as many rounds as there are bytes, and one more, are
  -- enough.
  pub collect-ne-stuck :
      (fuel : ℕ) (seen : List (Received M.Object)) (s : Source)
      → length s.input < fuel
      → (collect fuel seen s).1 ≢ stuck
  unfolding collect
  collect-ne-stuck zero seen s h = absurd (omega arith)
  collect-ne-stuck (suc fuel) seen s h = elim (Out-cases (receive M allow_unparsed s)) [
    | inl (o, n, s', r) ↦
        rw (r, collect)
          (collect-ne-stuck fuel (seen ++ (o ∷ [])) s' (omega (arith, receive_shrinks s o n s' r)))
    | inr (eof, n, s', r) ↦ rw (r, collect) (λ x. cc)
    | inr (other, n, s', r) ↦ rw (r, collect) (λ x. ground arith)
  ]

module _ (M : ObjectModel) where
  -- An object that a binary channel carries: it is codable within the bounds of a codec call, and
  -- its type name and its frame fit their lengths.
  pub record IsSendable (o : M.Object) : Type 0 where
    pub payload : List ℕ
    pub codable : IsCodable M o payload
    pub depth_fits : codable.depth_needed ≤ max_blueprint_depth
    pub frames_fit : codable.frames_needed ≤ max_codec_frames
    pub is_named : 0 < length (M.object_type o)
    pub frame_fits : FrameFits (M.object_type o) payload

  abbrev pub frame_of : (o : M.Object) → IsSendable o → List ℕ
  frame_of o h = frame (M.object_type o) h.payload

  abbrev pub frames : (os : List M.Object) → All IsSendable os → List ℕ
  frames [] h = []
  frames (o ∷ os) h = frame_of o h.0 ++ frames os h.1

  unfoldable pub send_each : List M.Object → Sink → Out Sink (Unit {0})
  send_each [] s = ok tt 0 s
  send_each (o ∷ os) s = elim (send M o s) [
    | ok a n s' ↦ send_each os s'
    | fail e n s' ↦ fail e n s'
  ]

  -- Sending sendable objects one after the other on a naked transport succeeds and appends exactly
  -- their frames, in order.
  pub send_each-frames :
      (os : List M.Object) (h : All IsSendable os) (out : List ℕ)
      → (n : ℕ) × (send_each os (sink out none) ≡ ok tt n (sink (out ++ frames os h) none))
  unfolding send_each
  send_each-frames [] h out = (0, rw append-nil refl)
  send_each-frames (o ∷ os) h out =
      let sent =
        send-frame M o h.0.payload out h.0.codable.depth_needed h.0.codable.frames_needed
          h.0.codable.writes h.0.depth_fits h.0.frames_fit h.0.frame_fits in
      let (n, rest) = send_each-frames os h.1 (out ++ frame_of o h.0) in
      (
        n,
        rw (sent, send_each) refl
            ∙ rest
            ∙ ap (λ l. ok tt n (sink l none)) (append_assoc out (frame_of o h.0) (frames os h.1)),
      )

  receive_sendable :
      (a : Bool) (o : M.Object) (h : IsSendable o) (rest : List ℕ)
      → receive M a (naked (frame_of o h ++ rest)) ≡ ok (known o) (length h.payload) (naked rest)
  receive_sendable a o h rest =
      receive-frame M a (M.object_type o) h.payload rest h.frame_fits
      ∙ receive-send M a o h.payload rest h.codable h.depth_fits h.frames_fit h.is_named
          h.frame_fits

  receive_eof : (a : Bool) → receive M a (naked []) ≡ fail eof 0 (naked [])
  unfolding receive read_object_type read_string read_fixed read_full
  receive_eof a = refl

  -- Collecting from a binary channel a stream made of the frames of sendable objects yields these
  -- objects in order, behind those seen before, and ends cleanly, with one round of fuel more than
  -- there are objects.
  pub collect-send_each :
      (a : Bool) (os : List M.Object) (h : All IsSendable os) (fuel : ℕ)
      (seen : List (Received M.Object))
      → length os < fuel
      → collect M a fuel seen (naked (frames os h)) ≡ (seen ++ map known os, clean)
  collect-send_each a os h zero seen l = absurd (omega arith)
  collect-send_each a [] h (suc fuel) seen l =
      unfold collect in rw (receive_eof a, collect, append-nil) refl
  collect-send_each a (o ∷ os) h (suc fuel) seen l =
      collect_step M a fuel seen _ _ _ _ (receive_sendable a o h.0 (frames os h.1))
      ∙ collect-send_each a os h.1 fuel (seen ++ (known o ∷ [])) (omega arith)
      ∙ ap (λ l. (l, clean)) (append_assoc seen (known o ∷ []) (map known os))

-- ===== src/Bundle/Untyped.antt =====
-- An untyped object, such as a Blob (astral/blob.go), in a Bundle of astral/bundle.go.
use astral_go.Base.{
  ℕ, ◌+◌, ◌^◌, ◌≤◌, ◌<◌, ◌≡◌, refl, none, some, List, [], ◌∷◌, ◌++◌, append_assoc, length,
  length-append, arith,
}
use astral_go.Wire.Out.{Error, Step, Out, ok, fail, ◌>>=◌, ◌>>◌, stream_corrupted}
use astral_go.Wire.Ledger.{
  Ledger, Allows, spend, max_blueprint_depth, max_codec_frames, max_codec_bytes,
}
use astral_go.Wire.Stream.{Source, Reader, naked, framed_read, framed_write}
use astral_go.Wire.Reads.{source}
use astral_go.Wire.Writes.{Writes, Writes-then, Writes-depth, Writes-frames, sink}
use astral_go.Astral.Fixed.{big_endian, write_fixed, read_fixed}
use astral_go.Astral.Fixed.Laws.{length-big_endian, Writes-write_fixed, Reads-read_fixed}
use astral_go.Astral.Sized.{w8, w32, write_string, read_bytes}
use astral_go.Astral.Sized.Laws.{sized, Writes-write_sized, Reads-read_bytes}
use astral_go.Astral.Header.{short_type_decoder}
use astral_go.Astral.Header.Laws.{Reads-read_object_type}
use astral_go.Channel.Objects.{ObjectModel}
use astral_go.Channel.Envelope.{decode, new_and_read}
use astral_go.Bundle.{
  Bundle, new_bundle, within, write_members, write_member, write_bundle, read_member, read_members,
  read_bundle, or_raise, append_unique,
}
use astral_go.Bundle.Members.{length-sized_block, block_written}

abbrev pub untyped_block : List ℕ → List ℕ
untyped_block payload = sized w8 [] ++ payload

abbrev pub untyped_bytes : List ℕ → List ℕ
untyped_bytes payload = big_endian 4 1 ++ sized w32 (untyped_block payload)

module _ (M : ObjectModel) (o : M.Object) (payload : List ℕ) {d f : ℕ} where
  Writes-untyped :
      M.object_type o ≡ []
      → Writes d f (M.write_to o) payload
      → Writes d f (write_string w8 (M.object_type o) >> M.write_to o) (untyped_block payload)
  unfolding write_string
  Writes-untyped t w = rw t (
      Writes-frames (omega arith)
        (Writes-then _ _ (Writes-depth (omega arith) (Writes-write_sized w8 [] (omega arith))) w))

  written :
      (out : List ℕ) (b : Ledger)
      → M.object_type o ≡ []
      → Writes d f (M.write_to o) payload
      → length (untyped_block payload) < 256 ^ 4
      → Allows d f
          (4 + (length (untyped_block payload) + (4 + length (untyped_block payload))))
          (some b)
      → (write_fixed 4 1 >> write_members M (o ∷ [])) (sink out (some b))
        ≡ ok tt (length (untyped_bytes payload)) (
            sink (out ++ untyped_bytes payload) (
              spend f
                (4 + (length (untyped_block payload) + (4 + length (untyped_block payload))))
                (some b)))
  unfolding write_members write_member
  written out b t w small al =
      let next = record b { frames = b.frames + 0; bytes = b.bytes + 4 } in
      let count = length-big_endian 4 1 in
      let block = untyped_block payload in
      rw
        (
          (Writes-write_fixed 4 1).at out (some b) (omega (arith, count)),
          count,
          block_written (Writes-untyped t w) (out ++ big_endian 4 1) next small (omega arith),
          append_assoc out (big_endian 4 1) (sized w32 block),
        )
        (ground (
          arith,
          count,
          length-append (big_endian 4 1) (sized w32 block),
          length-sized_block block,
        ))

-- The call ends with the error, whatever it has moved.
abbrev pub Fails : {S A : Type 0} → Error → Out S A → Type 0
Fails {S} e r = (n : ℕ) × (s : S) × (r ≡ fail e n s)

module _ {S A B : Type 0} (e : Error) (m : Step S A) (k : A → Step S B) where
  Fails-after : (s t : S) (a : A) (n : ℕ) → m s ≡ ok a n t → Fails e (k a t) → Fails e ((m >>= k) s)
  Fails-after s t a n h (i, u, p) = (n + i, u, rw (h, p) refl)

  Fails-first : (s : S) → Fails e (m s) → Fails e ((m >>= k) s)
  Fails-first s (i, u, p) = (i, u, rw p refl)

Fails-within :
    {A : Type 0} (e : Error) (bs : List ℕ) (m : Reader A) (s : Source)
    → Fails e (m (source bs s.ledger))
    → Fails e (within bs m s)
unfolding within
Fails-within e bs m s (i, u, p) = (0, record s { ledger = u.ledger }, rw (p, within) refl)

framed_read-Fails :
    {A : Type 0} (e : Error) (m : Reader A) (input : List ℕ)
    → Fails e (m (source input (some (record { depth = 1; frames = 1; bytes = 0 }))))
    → Fails e (framed_read m (naked input))
unfolding framed_read
framed_read-Fails e m input (n, s, p) =
    (n, record { input = s.input; ledger = none }, ground (arith, p))

module _ (M : ObjectModel) (payload : List ℕ) where
  -- The type is read as the empty name, for which there is no object.
  not_decoded :
      (b : Ledger)
      → M.new [] ≡ none
      → Allows 0 0 1 (some b)
      → Fails stream_corrupted
          (decode M short_type_decoder (source (untyped_block payload) (some b)))
  unfolding decode new_and_read short_type_decoder
  not_decoded b new al =
      Fails-after stream_corrupted short_type_decoder (new_and_read M)
        (source (untyped_block payload) (some b)) _ [] _
        ((Reads-read_object_type [] (omega arith)).at payload (some b) (unfold big_endian in al))
        (0, source payload (spend 0 (length (sized w8 [])) (some b)), rw (new, new_and_read) refl)

  unread :
      (sha256 : List ℕ → List ℕ) (rest : List ℕ) (b : Ledger)
      → M.new [] ≡ none
      → length (untyped_block payload) < 256 ^ 4
      → Allows 0 0
          (4 + (length (untyped_block payload) + (4 + length (untyped_block payload))))
          (some b)
      → Fails stream_corrupted (
          (read_fixed 4 >>= λ count. read_members M sha256 count new_bundle)
            (source (untyped_bytes payload ++ rest) (some b)))
  unfolding read_members read_member
  unread sha256 rest b new small al =
      let count = length-big_endian 4 1 in
      let block = untyped_block payload in
      let len = length-sized_block block in
      let one : 0 < length block = unfold big_endian in omega arith in
      let L = record b { frames = b.frames + 0; bytes = b.bytes + length (big_endian 4 1) } in
      let L' = record L { frames = L.frames + 0; bytes = L.bytes + length (sized w32 block) } in
      let first : read_fixed 4 (source (untyped_bytes payload ++ rest) (some b))
          ≡ ok 1 (length (big_endian 4 1)) (source (sized w32 block ++ rest) (some L)) =
        rw (append_assoc (big_endian 4 1) (sized w32 block) rest) (
          (Reads-read_fixed 4 1 (omega arith)).at (sized w32 block ++ rest) (some b)
            (omega (arith, count))) in
      Fails-after stream_corrupted (read_fixed 4) _ _ _ 1 _ first (
        Fails-first stream_corrupted (read_member M sha256 new_bundle) _ _ (
          Fails-after stream_corrupted (read_bytes w32) _ _ _ block _
            ((Reads-read_bytes w32 block small).at rest (some L) (omega (arith, count, len)))
            (Fails-first stream_corrupted (within block (decode M short_type_decoder))
              (λ o. or_raise (append_unique M sha256 o new_bundle)) (source rest (some L'))
              (Fails-within stream_corrupted block (decode M short_type_decoder)
                (source rest (some L')) (not_decoded L' new (omega (arith, count, len, one)))))))

module _ (M : ObjectModel) (sha256 : List ℕ → List ℕ) where
  -- A bundle of one untyped object, within the bounds of a codec call and without a prototype under
  -- the empty name: WriteTo on a naked stream succeeds, and ReadFrom of the bytes, with any others
  -- behind them, fails.
  pub write_bundle-untyped :
      (b : Bundle M.Object) (o : M.Object) (payload out rest : List ℕ) (d f : ℕ)
      → b.objects ≡ o ∷ []
      → M.object_type o ≡ []
      → M.new [] ≡ none
      → Writes d f (M.write_to o) payload
      → d + 1 ≤ max_blueprint_depth
      → f + 1 ≤ max_codec_frames
      → 10 + (length payload + length payload) ≤ max_codec_bytes
      → (write_bundle M b (sink out none)
          ≡ ok tt (length (untyped_bytes payload)) (sink (out ++ untyped_bytes payload) none))
        × Fails stream_corrupted (read_bundle M sha256 (naked (untyped_bytes payload ++ rest)))
  unfolding write_bundle read_bundle framed_write
  write_bundle-untyped b o payload out rest d f one t new w hd hf hb =
      let len : length (untyped_block payload) ≡ 1 + length payload =
        unfold big_endian in omega arith in
      (
        rw one (
            ground (
              arith,
              written M o payload out (record { depth = 1; frames = 1; bytes = 0 }) t w
                  (omega (arith, len)) (omega (arith, len)),
            )),
        framed_read-Fails stream_corrupted _ (untyped_bytes payload ++ rest) (
            unread M payload sha256 rest (record { depth = 1; frames = 1; bytes = 0 }) new
              (omega (arith, len)) (omega (arith, len))),
      )

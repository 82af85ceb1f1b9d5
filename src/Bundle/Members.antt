-- ===== src/Bundle/Members.antt =====
-- One member of a Bundle of astral/bundle.go on the wire: the staged block with its 32-bit length,
-- and what it costs of the ledger that the staging buffer shares.
use astral_go.Base.{
  ℕ, ◌+◌, ◌^◌, ◌≤◌, ◌<◌, ◌≡◌, refl, some, List, [], ◌++◌, append-nil, append_assoc, length,
  length-append, arith, inl,
}
use astral_go.Wire.Out.{ok, ◌>>=◌, ◌>>◌}
use astral_go.Wire.Ledger.{Ledger, Allows, spend}
use astral_go.Wire.Stream.{Source, Reader, Writer, attach_reader}
use astral_go.Wire.Reads.{source, Reads-depth}
use astral_go.Wire.Writes.{Writes, Writes-then, Writes-depth, Writes-frames, sink}
use astral_go.Astral.Fixed.{big_endian}
use astral_go.Wire.Ledger.Laws.{spend-spend}
use astral_go.Astral.Fixed.Laws.{length-big_endian}
use astral_go.Astral.Sized.{w8, w32, write_string, write_bytes, read_bytes}
use astral_go.Astral.Sized.Laws.{sized, Writes-write_sized, Reads-read_bytes}
use astral_go.Astral.Header.{short_type_decoder}
use astral_go.Astral.Header.Laws.{short_header}
use astral_go.Channel.Objects.{ObjectModel, IsCodable}
use astral_go.Channel.Envelope.{decode, new_and_read}
use astral_go.Bundle.{Bundle, append_unique, staged, write_member, within, or_raise, read_member}

pub length-sized_block : (bs : List ℕ) → length (sized w32 bs) ≡ 4 + length bs
length-sized_block bs =
    omega (arith, length-append (big_endian 4 (length bs)) bs, length-big_endian 4 (length bs))

module _ {d f : ℕ} {body : Writer} {bs : List ℕ} (h : Writes d f body bs) where
  staged_at :
      (out : List ℕ) (b : Ledger)
      → Allows d f (length bs) (some b)
      → staged body (sink out (some b)) ≡ ok bs 0 (sink out (spend f (length bs) (some b)))
  unfolding staged
  staged_at out b al = rw (h.at [] (some b) al, staged) refl

  pub block_written :
      (out : List ℕ) (b : Ledger)
      → length bs < 256 ^ 4
      → Allows d f (length bs + (4 + length bs)) (some b)
      → (staged body >>= λ raw. write_bytes w32 raw) (sink out (some b))
        ≡ ok tt
            (4 + length bs)
            (sink (out ++ sized w32 bs) (spend f (length bs + (4 + length bs)) (some b)))
  unfolding write_bytes
  block_written out b small al =
      let L = spend f (length bs) (some b) in
      let len = length-sized_block bs in
      rw
        (
          staged_at out b (omega arith),
          (Writes-write_sized w32 bs small).at out L (omega (arith, len)),
          len,
          spend-spend f 0 (length bs) (4 + length bs) (some b),
        )
        (ground arith)

-- A reader under a ledger of its own or of a call around it, as in the frame of a bundle.
record ReadsUnder {A : Type 0} (d f : ℕ) (m : Reader A) (bs : List ℕ) (a : A) : Type 0 where
  at :
      (rest : List ℕ) (b : Ledger)
      → Allows d f (length bs) (some b)
      → m (source (bs ++ rest) (some b))
        ≡ ok a (length bs) (source rest (spend f (length bs) (some b)))

module _ {A : Type 0} {d f : ℕ} {body : Reader A} {bs : List ℕ} {a : A}
    (h : ReadsUnder d f body bs a) where
  within_at :
      (rest : List ℕ) (b : Ledger)
      → Allows d f (length bs) (some b)
      → within bs body (source rest (some b)) ≡ ok a 0 (source rest (spend f (length bs) (some b)))
  unfolding within
  within_at rest b al =
      let all : body (source bs (some b))
          ≡ ok a (length bs) (source [] (spend f (length bs) (some b))) =
        rw (append-nil bs) at (h.at [] b al) in
      rw (all, within) refl

  block_read :
      {B : Type 0} (k : A → Reader B) (v : B) (rest : List ℕ) (b : Ledger)
      → length bs < 256 ^ 4
      → Allows d f (length bs + (4 + length bs)) (some b)
      → ((s : Source) → k a s ≡ ok v 0 s)
      → (read_bytes w32 >>= λ buf. within buf body >>= k) (source (sized w32 bs ++ rest) (some b))
        ≡ ok v (4 + length bs) (source rest (spend f (length bs + (4 + length bs)) (some b)))
  block_read k v rest b small al last =
      let len = length-sized_block bs in
      rw
        (
          (Reads-read_bytes w32 bs small).at rest (some b) (omega (arith, len)),
          len,
          within_at rest (record b { frames = b.frames + 0; bytes = b.bytes + (4 + length bs) })
              (omega arith),
        )
        (ground (
          arith,
          last (
              source rest (
                spend f (length bs)
                  (some (record b { frames = b.frames + 0; bytes = b.bytes + (4 + length bs) })))),
        ))

module _ (M : ObjectModel) where
  -- An object that a bundle can carry `d` levels below its own frame: codable, with a type name of 1
  -- to 255 bytes, and a block that its 32-bit length can count.
  pub record IsMember (d : ℕ) (o : M.Object) : Type 0 where
    pub payload : List ℕ
    pub codable : IsCodable M o payload
    pub shallow : codable.depth_needed ≤ d
    pub typed : 0 < length (M.object_type o)
    pub short : length (M.object_type o) < 256
    pub small : length (sized w8 (M.object_type o) ++ payload) < 256 ^ 4

  abbrev pub block : {d : ℕ} {o : M.Object} → IsMember d o → List ℕ
  block {o = o} m = sized w8 (M.object_type o) ++ m.payload

  -- The block is charged when it is staged, and again with its length.
  abbrev pub cost : {d : ℕ} {o : M.Object} → IsMember d o → ℕ
  cost m = length (block m) + (4 + length (block m))

  abbrev pub frames : {d : ℕ} {o : M.Object} → IsMember d o → ℕ
  frames m = m.codable.frames_needed

  abbrev pub member_bytes : {d : ℕ} {o : M.Object} → IsMember d o → List ℕ
  member_bytes m = sized w32 (block m)

  module _ {d : ℕ} {o : M.Object} (m : IsMember d o) where
    Writes-block : Writes d (frames m) (write_string w8 (M.object_type o) >> M.write_to o) (block m)
    unfolding write_string
    Writes-block = Writes-frames (omega arith) (
        Writes-then _ _
          (Writes-depth (omega arith) (Writes-write_sized w8 (M.object_type o) m.short))
          (Writes-depth m.shallow m.codable.writes))

    ReadsUnder-decode : ReadsUnder d (frames m) (decode M short_type_decoder) (block m) o
    unfolding decode new_and_read attach_reader
    ReadsUnder-decode = record {
      at = λ rest b al.
          let name = sized w8 (M.object_type o) in
          let total : length (block m) ≡ length name + length m.payload =
            length-append name m.payload in
          let header =
            (short_header (M.object_type o) m.typed m.short).1.at (m.payload ++ rest) (some b)
              (omega (arith, total)) in
          let body =
            (Reads-depth m.shallow m.codable.reads).at rest
              (some (record b { frames = b.frames + 0; bytes = b.bytes + length name }))
              (omega (arith, total)) in
          let inner = record b { frames = b.frames + 0; bytes = b.bytes + length name } in
          let object : new_and_read M (M.object_type o) (source (m.payload ++ rest) (some inner))
              ≡ ok o (length m.payload)
                  (source rest (spend (frames m) (length m.payload) (some inner))) =
            rw (m.codable.registered, new_and_read) body in
          rw (append_assoc name m.payload rest, header, object) (ground (arith, total));
    }

    pub write_member_at :
        (out : List ℕ) (b : Ledger)
        → Allows d (frames m) (cost m) (some b)
        → write_member M o (sink out (some b))
          ≡ ok tt
              (4 + length (block m))
              (sink (out ++ member_bytes m) (spend (frames m) (cost m) (some b)))
    unfolding write_member
    write_member_at out b al = block_written Writes-block out b m.small al

    pub read_member_at :
        (sha256 : List ℕ → List ℕ) (rest : List ℕ) (b : Ledger) (c e : Bundle M.Object)
        → append_unique M sha256 o c ≡ inl e
        → Allows d (frames m) (cost m) (some b)
        → read_member M sha256 c (source (member_bytes m ++ rest) (some b))
          ≡ ok e (4 + length (block m)) (source rest (spend (frames m) (cost m) (some b)))
    unfolding read_member or_raise
    read_member_at sha256 rest b c e new al =
        block_read ReadsUnder-decode (λ p. or_raise (append_unique M sha256 p c)) e rest b m.small
          al (λ s. rw new refl)

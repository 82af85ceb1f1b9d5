-- ===== src/Bundle/RoundTrip.antt =====
-- A Bundle of astral/bundle.go written and read back.

use astral_go.Base.{
  ℕ, ◌+◌, ◌*◌, ◌%◌, ◌^◌, ◌≤◌, ◌<◌, ◌≡◌, refl, Option, none, some, List, [], ◌∷◌, ◌++◌, append-nil,
  append_assoc, length, length-append, arith, inl, inr, All, Sum-cases,
}
use astral_go.Wire.Out.{ok, ◌>>=◌, ◌>>◌}
use astral_go.Wire.Ledger.{Ledger, Allows, spend}
use astral_go.Wire.Stream.{framed_read, framed_write}
use astral_go.Wire.Reads.{source}
use astral_go.Wire.Writes.{sink}
use astral_go.Astral.Fixed.{big_endian, write_fixed, read_fixed}
use astral_go.Astral.Fixed.Laws.{length-big_endian, Writes-write_fixed, Reads-read_fixed}
use astral_go.Channel.Objects.{ObjectModel}
use astral_go.Bundle.{
  Bundle, new_bundle, append_unique, append, write_members, write_bundle, read_members, read_bundle,
}
use astral_go.Bundle.Laws.{appends, appends-IsBuilt}
use astral_go.Bundle.Members.{
  IsMember, block, cost, frames, member_bytes, length-sized_block, write_member_at, read_member_at,
}

module _ (M : ObjectModel) (d : ℕ) where
  abbrev pub AreMembers : List M.Object → Type 0
  AreMembers = All (IsMember M d)

  unfoldable pub frames_of : (os : List M.Object) → AreMembers os → ℕ
  frames_of [] ms = 0
  frames_of (o ∷ os) ms = frames M ms.0 + frames_of os ms.1

  unfoldable pub cost_of : (os : List M.Object) → AreMembers os → ℕ
  cost_of [] ms = 0
  cost_of (o ∷ os) ms = cost M ms.0 + cost_of os ms.1

  unfoldable pub bytes_of : (os : List M.Object) → AreMembers os → List ℕ
  bytes_of [] ms = []
  bytes_of (o ∷ os) ms = member_bytes M ms.0 ++ bytes_of os ms.1

  abbrev pub bundle_bytes : (os : List M.Object) → AreMembers os → List ℕ
  bundle_bytes os ms = big_endian 4 (length os) ++ bytes_of os ms

  write_members_at :
      (os : List M.Object) (ms : AreMembers os) (out : List ℕ) (b : Ledger)
      → Allows d (frames_of os ms) (cost_of os ms) (some b)
      → write_members M os (sink out (some b))
        ≡ ok tt
            (length (bytes_of os ms))
            (sink (out ++ bytes_of os ms) (spend (frames_of os ms) (cost_of os ms) (some b)))
  unfolding write_members frames_of cost_of bytes_of
  write_members_at [] ms out b al = rw (append-nil out) (ground arith)
  write_members_at (o ∷ os) ms out b al =
      let m = ms.0 in
      let next = record b { frames = b.frames + frames M m; bytes = b.bytes + cost M m } in
      rw
        (
          write_member_at M m out b (omega arith),
          write_members_at os ms.1 (out ++ member_bytes M m) next (omega arith),
          append_assoc out (member_bytes M m) (bytes_of os ms.1),
        )
        (ground (
          arith,
          length-append (member_bytes M m) (bytes_of os ms.1),
          length-sized_block (block M m),
        ))

  module _ (sha256 : List ℕ → List ℕ) where
    read_members_at :
        (os : List M.Object) (ms : AreMembers os) (rest : List ℕ) (b : Ledger)
        (c e : Bundle M.Object)
        → append M sha256 os c ≡ (e, none)
        → Allows d (frames_of os ms) (cost_of os ms) (some b)
        → read_members M sha256 (length os) c (source (bytes_of os ms ++ rest) (some b))
          ≡ ok e
              (length (bytes_of os ms))
              (source rest (spend (frames_of os ms) (cost_of os ms) (some b)))
    unfolding read_members frames_of cost_of bytes_of append
    read_members_at [] ms rest b c e h al = ground (arith, h)
    read_members_at (o ∷ os) ms rest b c e h al = elim (Sum-cases (append_unique M sha256 o c)) [
      | inr (x, no_room) ↦ absurd (ground (arith, rw (no_room, append) at h))
      | inl (t, new) ↦
          let m = ms.0 in
          let next = record b { frames = b.frames + frames M m; bytes = b.bytes + cost M m } in
          rw
            (
              append_assoc (member_bytes M m) (bytes_of os ms.1) rest,
              read_member_at M m sha256 (bytes_of os ms.1 ++ rest) b c t new (omega arith),
              read_members_at os ms.1 rest next t e (rw (new, append) at h) (omega arith),
            )
            (ground (
              arith,
              length-append (member_bytes M m) (bytes_of os ms.1),
              length-sized_block (block M m),
            ))
    ]

    length-cost_of : (os : List M.Object) (ms : AreMembers os) → 4 * length os ≤ cost_of os ms
    unfolding cost_of
    length-cost_of [] ms = omega arith
    length-cost_of (o ∷ os) ms = omega (arith, length-cost_of os ms.1)

    few :
        (os : List M.Object) (ms : AreMembers os) (L : Option Ledger)
        → Allows (d + 1) (frames_of os ms + 1) (4 + cost_of os ms) L
        → length os < 2 ^ 32
    few os ms none al = omega (arith, length-cost_of os ms)
    few os ms (some b) al = omega (arith, length-cost_of os ms)

    write_body_at :
        (bd : Bundle M.Object) (ms : AreMembers bd.objects) (out : List ℕ) (b : Ledger)
        → length bd.objects < 2 ^ 32
        → Allows d (frames_of bd.objects ms) (4 + cost_of bd.objects ms) (some b)
        → (write_fixed 4 (length bd.objects % 2 ^ 32) >> write_members M bd.objects)
            (sink out (some b))
          ≡ ok tt (length (bundle_bytes bd.objects ms)) (
              sink
                (out ++ bundle_bytes bd.objects ms)
                (spend (frames_of bd.objects ms) (4 + cost_of bd.objects ms) (some b)))
    write_body_at bd ms out b small al =
        let n = length bd.objects in
        let whole : n % 2 ^ 32 ≡ n = omega arith in
        let count = length-big_endian 4 n in
        let next = record b { frames = b.frames + 0; bytes = b.bytes + 4 } in
        rw
          (
            whole,
            (Writes-write_fixed 4 n).at out (some b) (omega (arith, count)),
            count,
            write_members_at bd.objects ms (out ++ big_endian 4 n) next (omega arith),
            append_assoc out (big_endian 4 n) (bytes_of bd.objects ms),
          )
          (ground (arith, count, length-append (big_endian 4 n) (bytes_of bd.objects ms)))

    read_body_at :
        (bd : Bundle M.Object) (ms : AreMembers bd.objects) (rest : List ℕ) (b : Ledger)
        → length bd.objects < 2 ^ 32
        → append M sha256 bd.objects new_bundle ≡ (bd, none)
        → Allows d (frames_of bd.objects ms) (4 + cost_of bd.objects ms) (some b)
        → (read_fixed 4 >>= λ count. read_members M sha256 count new_bundle)
            (source (bundle_bytes bd.objects ms ++ rest) (some b))
          ≡ ok bd
              (length (bundle_bytes bd.objects ms))
              (source rest (spend (frames_of bd.objects ms) (4 + cost_of bd.objects ms) (some b)))
    read_body_at bd ms rest b small built al =
        let n = length bd.objects in
        let count = length-big_endian 4 n in
        let next = record b { frames = b.frames + 0; bytes = b.bytes + 4 } in
        rw
          (
            append_assoc (big_endian 4 n) (bytes_of bd.objects ms) rest,
            (Reads-read_fixed 4 n small).at (bytes_of bd.objects ms ++ rest) (some b)
                (omega (arith, count)),
            count,
            read_members_at bd.objects ms rest next new_bundle bd built (omega arith),
          )
          (ground (arith, count, length-append (big_endian 4 n) (bytes_of bd.objects ms)))

    write_bundle_at :
        (bd : Bundle M.Object) (ms : AreMembers bd.objects) (out : List ℕ) (L : Option Ledger)
        → length bd.objects < 2 ^ 32
        → Allows (d + 1) (frames_of bd.objects ms + 1) (4 + cost_of bd.objects ms) L
        → write_bundle M bd (sink out L)
          ≡ ok tt (length (bundle_bytes bd.objects ms)) (
              sink
                (out ++ bundle_bytes bd.objects ms)
                (spend (frames_of bd.objects ms + 1) (4 + cost_of bd.objects ms) L))
    unfolding write_bundle framed_write
    write_bundle_at bd ms out none small al = ground (
      arith,
      write_body_at bd ms out (record { depth = 1; frames = 1; bytes = 0 }) small (omega arith),
    )
    write_bundle_at bd ms out (some b) small al = ground (
      arith,
      write_body_at bd ms out (record b { depth = b.depth + 1; frames = b.frames + 1 }) small
          (omega arith),
    )

    read_bundle_at :
        (bd : Bundle M.Object) (ms : AreMembers bd.objects) (rest : List ℕ) (L : Option Ledger)
        → length bd.objects < 2 ^ 32
        → append M sha256 bd.objects new_bundle ≡ (bd, none)
        → Allows (d + 1) (frames_of bd.objects ms + 1) (4 + cost_of bd.objects ms) L
        → read_bundle M sha256 (source (bundle_bytes bd.objects ms ++ rest) L)
          ≡ ok bd
              (length (bundle_bytes bd.objects ms))
              (source rest (spend (frames_of bd.objects ms + 1) (4 + cost_of bd.objects ms) L))
    unfolding read_bundle framed_read
    read_bundle_at bd ms rest none small built al = ground (
      arith,
      read_body_at bd ms rest (record { depth = 1; frames = 1; bytes = 0 }) small built
          (omega arith),
    )
    read_bundle_at bd ms rest (some b) small built al = ground (
      arith,
      read_body_at bd ms rest (record b { depth = b.depth + 1; frames = b.frames + 1 }) small built
          (omega arith),
    )

    -- A bundle that Append calls have filled, with failures among them or not, whose objects are
    -- members within `d` levels: under a ledger that allows one level more, the frames of the
    -- members and one more, and twice the bytes of their blocks, four for each length and four for
    -- the count, WriteTo appends the count and the blocks, and ReadFrom of these bytes, with any
    -- others behind them, makes the same bundle and leaves the others; both charge the same.
    pub read_bundle-write_bundle :
        (calls : List (List M.Object)) (out rest : List ℕ) (L : Option Ledger)
        (ms : AreMembers (appends M sha256 calls new_bundle).objects)
        → Allows
            (d + 1)
            (frames_of (appends M sha256 calls new_bundle).objects ms + 1)
            (4 + cost_of (appends M sha256 calls new_bundle).objects ms)
            L
        → let bd = appends M sha256 calls new_bundle in
          let bs = bundle_bytes bd.objects ms in
          let left = spend (frames_of bd.objects ms + 1) (4 + cost_of bd.objects ms) L in
          (write_bundle M bd (sink out L) ≡ ok tt (length bs) (sink (out ++ bs) left))
          × (read_bundle M sha256 (source (bs ++ rest) L) ≡ ok bd (length bs) (source rest left))
    unfolding append
    read_bundle-write_bundle calls out rest L ms al =
        let bd = appends M sha256 calls new_bundle in
        let small = few bd.objects ms L al in
        (
          write_bundle_at bd ms out L small al,
          read_bundle_at bd ms rest L small (appends-IsBuilt M sha256 calls new_bundle refl) al,
        )

-- ===== src/Astral/RoundTrip.antt =====
-- Writers and readers of astral/ side by side, on a stream under the budget of a codec call or
-- without one.
use astral_go.Base.{ℕ, ◌^◌, ◌<◌, ◌≤◌, ◌≡◌, Option, some, List, ◌++◌, length}
use astral_go.Wire.Out.{ok}
use astral_go.Wire.Ledger.{Ledger, Allows, spend}
use astral_go.Wire.Reads.{source}
use astral_go.Wire.Writes.{sink}
use astral_go.Astral.Fixed.{big_endian, write_fixed, read_fixed}
use astral_go.Astral.Fixed.Laws.{Writes-write_fixed, Reads-read_fixed}
use astral_go.Astral.Sized.{Width, w8, write_string, write_bytes, read_string, read_bytes}
use astral_go.Astral.Sized.Laws.{
  sized, Fits, Writes-write_sized, Reads-read_string, Reads-read_bytes,
}
use astral_go.Astral.Header.{
  canonical_type_encoder, canonical_type_decoder, indexed_type_encoder, indexed_type_decoder,
  index_of,
}
use astral_go.Astral.Header.Laws.{stamp_bytes, canonical_header, indexed_header}

module _ (out rest : List ℕ) (L : Option Ledger) where
  -- A value below 256 ^ w is written in w bytes, and these bytes are read as the value; what
  -- follows them is left. The budget must have room for the bytes.
  pub read_fixed-write_fixed :
      (w v : ℕ)
      → v < 256 ^ w
      → Allows 0 0 (length (big_endian w v)) L
      → let bs = big_endian w v in
        (write_fixed w v (sink out L)
          ≡ ok tt (length bs) (sink (out ++ bs) (spend 0 (length bs) L)))
        × (read_fixed w (source (bs ++ rest) L)
            ≡ ok v (length bs) (source rest (spend 0 (length bs) L)))
  read_fixed-write_fixed w v h room =
      ((Writes-write_fixed w v).at out L room, (Reads-read_fixed w v h).at rest L room)

  -- A string that fits its length prefix is written as the prefix and its bytes, and these are read
  -- as the string; what follows them is left. The budget must have room for them.
  pub read_string-write_string :
      (w : Width) (b : List ℕ)
      → Fits w b
      → Allows 0 0 (length (sized w b)) L
      → let bs = sized w b in
        (write_string w b (sink out L)
          ≡ ok tt (length bs) (sink (out ++ bs) (spend 0 (length bs) L)))
        × (read_string w (source (bs ++ rest) L)
            ≡ ok b (length bs) (source rest (spend 0 (length bs) L)))
  unfolding write_string
  read_string-write_string w b h room =
      ((Writes-write_sized w b h).at out L room, (Reads-read_string w b h).at rest L room)

  -- A byte slice that fits its length prefix is written as the prefix and its bytes, and these are
  -- read as the slice; what follows them is left. The budget must have room for them.
  pub read_bytes-write_bytes :
      (w : Width) (b : List ℕ)
      → Fits w b
      → Allows 0 0 (length (sized w b)) L
      → let bs = sized w b in
        (write_bytes w b (sink out L)
          ≡ ok tt (length bs) (sink (out ++ bs) (spend 0 (length bs) L)))
        × (read_bytes w (source (bs ++ rest) L)
            ≡ ok b (length bs) (source rest (spend 0 (length bs) L)))
  unfolding write_bytes
  read_bytes-write_bytes w b h room =
      ((Writes-write_sized w b h).at out L room, (Reads-read_bytes w b h).at rest L room)

  -- The canonical header of a type name that is not empty and has at most 255 bytes is the stamp
  -- and the name, and is read as the name. The budget must have room for it.
  pub canonical_type_decoder-encoder :
      (t : List ℕ)
      → 0 < length t
      → length t < 256
      → Allows 0 0 (length (stamp_bytes ++ sized w8 t)) L
      → let bs = stamp_bytes ++ sized w8 t in
        (canonical_type_encoder t (sink out L)
          ≡ ok tt (length bs) (sink (out ++ bs) (spend 0 (length bs) L)))
        × (canonical_type_decoder (source (bs ++ rest) L)
            ≡ ok t (length bs) (source rest (spend 0 (length bs) L)))
  canonical_type_decoder-encoder t ne h room =
      let (writes, reads) = canonical_header t ne h in (writes.at out L room, reads.at rest L room)

  -- The index of a type of a table of at most 256 types is written in a byte, and this is read as
  -- the type. The budget must have room for it.
  pub indexed_type_decoder-encoder :
      (types : List (List ℕ)) (t : List ℕ) (c : ℕ)
      → length types ≤ 256
      → index_of 0 types t ≡ some c
      → Allows 0 0 (length (big_endian 1 c)) L
      → let bs = big_endian 1 c in
        (indexed_type_encoder types t (sink out L)
          ≡ ok tt (length bs) (sink (out ++ bs) (spend 0 (length bs) L)))
        × (indexed_type_decoder types (source (bs ++ rest) L)
            ≡ ok t (length bs) (source rest (spend 0 (length bs) L)))
  indexed_type_decoder-encoder types t c small e room =
      let (writes, reads) = indexed_header types t c small e in
      (writes.at out L room, reads.at rest L room)

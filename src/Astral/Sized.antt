-- ===== src/Astral/Sized.antt =====
-- Length-prefixed buffers: String8 to String64 (astral/string_types.go) and Bytes8 to Bytes64
-- (astral/byte_types.go), with writePayload (astral/write_payload.go) and readNBytes
-- (astral/read_bounded.go). A string is the list of its bytes.
pub mod Chunks
pub mod Laws
use astral_go.Base.{
  ℕ, zero, suc, ◌+◌, ◌-◌, ◌/◌, ◌^◌, min, true, false, List, [], ◌∷◌, ◌++◌, ltb, ◌==◌, if◌then◌else◌,
  length,
}
use astral_go.Wire.Out.{too_large, no_eof, ◌>>=◌, ◌>>◌, pure, raise}
use astral_go.Wire.Stream.{Reader, Writer, read_full, write}
use astral_go.Astral.Fixed.{write_fixed, read_fixed}

-- The number in a type's name, 8 to 64.
pub data Width : Type 0 where
  w8 w16 w32 w64 : Width

-- The bytes of the length prefix.
abbrev pub prefix_len : Width → ℕ
prefix_len w8 = 1
prefix_len w16 = 2
prefix_len w32 = 4
prefix_len w64 = 8

abbrev pub grow_chunk : ℕ
grow_chunk = 65536

unfoldable pub write_payload : List ℕ → Writer
write_payload b = if length b == 0 then pure tt else write b

-- The loop of readNBytes: `left` bytes are wanted beyond those in `buf`. Each round takes
-- `grow_chunk` bytes or the rest, so `want / grow_chunk + 1` rounds are enough.
unfoldable pub read_chunks : ℕ → ℕ → List ℕ → Reader (List ℕ)
read_chunks zero left buf = pure buf
read_chunks (suc fuel) left buf = elim (left == 0) [
  | true ↦ pure buf
  | false ↦ (λ s. no_eof (read_full (min left grow_chunk) s)) >>= λ p.
      read_chunks fuel (left - min left grow_chunk) (buf ++ p)
]

unfoldable pub read_n_bytes : ℕ → Reader (List ℕ)
unfolding read_chunks
read_n_bytes want = if want == 0 then pure [] else read_chunks (want / grow_chunk + 1) want []

-- `len(s) > 1<<k - 1` is tested before the length is cut to the prefix; the 64-bit types have no
-- such test.
unfoldable pub write_sized : Width → List ℕ → Writer
unfolding write_payload
write_sized w64 b = write_fixed 8 (length b) >> write_payload b
write_sized w b =
    if ltb (256 ^ prefix_len w - 1) (length b)
    then raise too_large
    else (write_fixed (prefix_len w) (length b) >> write_payload b)

unfoldable pub write_string : Width → List ℕ → Writer
unfolding write_sized
write_string = write_sized

unfoldable pub write_bytes : Width → List ℕ → Writer
unfolding write_sized
write_bytes = write_sized

-- String8 and String16 read their payload by io.ReadFull, the wider ones by readNBytes.
unfoldable pub read_string : Width → Reader (List ℕ)
unfolding read_n_bytes
read_string w8 = read_fixed 1 >>= read_full
read_string w16 = read_fixed 2 >>= read_full
read_string w32 = read_fixed 4 >>= read_n_bytes
read_string w64 = read_fixed 8 >>= read_n_bytes

unfoldable pub read_bytes : Width → Reader (List ℕ)
unfolding read_n_bytes
read_bytes w = read_fixed (prefix_len w) >>= read_n_bytes

-- ===== src/Astral/Sized/Laws.antt =====
-- Length-prefixed buffers: what is written, the refusal of an oversized buffer, and the buffer
-- read back.
use astral_go.Base.{
  ℕ, ◌-◌, ◌^◌, ◌≤◌, ◌<◌, ◌≡◌, refl, false, List, [], ◌∷◌, ◌++◌, length, arith, ltb, ◌==◌,
}
use astral_go.Wire.Out.{fail, too_large, ◌>>◌}
use astral_go.Wire.Stream.{Sink}
use astral_go.Wire.Reads.{Reads, Reads-bind, Reads-read_full}
use astral_go.Wire.Writes.{Writes, Writes-pure, Writes-write, Writes-then}
use astral_go.Astral.Fixed.{big_endian, write_fixed}
use astral_go.Astral.Fixed.Laws.{Writes-write_fixed, Reads-read_fixed}
use astral_go.Astral.Sized.{
  Width, w8, w16, w32, w64, prefix_len, write_payload, write_sized, read_string, read_bytes,
}
use astral_go.Astral.Sized.Chunks.{Reads-read_n_bytes}

-- The wire form of a buffer: its length, then its bytes.
abbrev pub sized : Width → List ℕ → List ℕ
sized w b = big_endian (prefix_len w) (length b) ++ b

-- The buffer fits the prefix.
abbrev pub Fits : Width → List ℕ → Type 0
Fits w b = length b < 256 ^ prefix_len w

Writes-write_payload : (b : List ℕ) → Writes 0 0 (write_payload b) b
unfolding write_payload
Writes-write_payload [] = Writes-pure 0
Writes-write_payload (x ∷ b) =
    let nonzero : (length (x ∷ b) == 0) ≡ false = ground arith in
    rw nonzero (Writes-write 0 (x ∷ b))

Writes-sized :
    (k : ℕ) (b : List ℕ)
    → Writes 0 0 (write_fixed k (length b) >> write_payload b) (big_endian k (length b) ++ b)
Writes-sized k b = Writes-then _ _ (Writes-write_fixed k (length b)) (Writes-write_payload b)

pub Writes-write_sized :
    (w : Width) (b : List ℕ) → Fits w b → Writes 0 0 (write_sized w b) (sized w b)
unfolding write_sized
Writes-write_sized w8 b h =
    let small : ltb (256 ^ 1 - 1) (length b) ≡ false = ground arith in rw small (Writes-sized 1 b)
Writes-write_sized w16 b h =
    let small : ltb (256 ^ 2 - 1) (length b) ≡ false = ground arith in rw small (Writes-sized 2 b)
Writes-write_sized w32 b h =
    let small : ltb (256 ^ 4 - 1) (length b) ≡ false = ground arith in rw small (Writes-sized 4 b)
Writes-write_sized w64 b h = Writes-sized 8 b

-- A buffer that does not fit an 8, 16 or 32 bit prefix is refused, and nothing is written.
pub write_sized-too_large :
    (w : Width) (b : List ℕ) (s : Sink)
    → prefix_len w ≤ 4
    → 256 ^ prefix_len w ≤ length b
    → write_sized w b s ≡ fail too_large 0 s
unfolding write_sized
write_sized-too_large w8 b s h k = ground arith
write_sized-too_large w16 b s h k = ground arith
write_sized-too_large w32 b s h k = ground arith
write_sized-too_large w64 b s h k = absurd (omega arith)

pub Reads-read_string :
    (w : Width) (b : List ℕ) → Fits w b → Reads 0 0 (read_string w) (sized w b) b
unfolding read_string
Reads-read_string w8 b h =
    Reads-bind _ _ (Reads-read_fixed 1 (length b) h) (Reads-read_full b _ refl)
Reads-read_string w16 b h =
    Reads-bind _ _ (Reads-read_fixed 2 (length b) h) (Reads-read_full b _ refl)
Reads-read_string w32 b h =
    Reads-bind _ _ (Reads-read_fixed 4 (length b) h) (Reads-read_n_bytes b _ refl)
Reads-read_string w64 b h =
    Reads-bind _ _ (Reads-read_fixed 8 (length b) h) (Reads-read_n_bytes b _ refl)

pub Reads-read_bytes : (w : Width) (b : List ℕ) → Fits w b → Reads 0 0 (read_bytes w) (sized w b) b
unfolding read_bytes
Reads-read_bytes w b h =
    Reads-bind _ _ (Reads-read_fixed (prefix_len w) (length b) h) (Reads-read_n_bytes b _ refl)

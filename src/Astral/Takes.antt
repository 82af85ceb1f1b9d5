-- ===== src/Astral/Takes.antt =====
-- How many bytes the scalar readers of astral/ take from the stream.
use astral_go.Base.{
  ℕ, zero, suc, ◌+◌, ◌≡◌, List, ◌++◌, ◌==◌, ◌-◌, ◌/◌, ◌<◌, [], min, arith, Bool-cases, inl, inr,
}
use astral_go.Wire.Out.{ok, Out-cases}
use astral_go.Wire.Stream.{Source, read_full}
use astral_go.Wire.Takes.{
  Takes, Takes-pure, Takes-bind, Takes-zero_on_fail, Takes-no_eof, Takes-read_full, read_full_exact,
}
use astral_go.Astral.Fixed.{read_fixed, from_big_endian}
use astral_go.Astral.Sized.{
  Width, w8, w16, w32, w64, prefix_len, grow_chunk, read_chunks, read_n_bytes, read_string,
  read_bytes,
}
use astral_go.Astral.Header.{read_object_type}

pub Takes-read_fixed : (w : ℕ) → Takes (read_fixed w)
unfolding read_fixed
Takes-read_fixed w = Takes-bind (Takes-zero_on_fail (Takes-read_full w)) (λ bs. Takes-pure _)

Takes-read_chunks : (f left : ℕ) (buf : List ℕ) → Takes (read_chunks f left buf)
unfolding read_chunks
Takes-read_chunks zero left buf = Takes-pure buf
Takes-read_chunks (suc f) left buf = elim (Bool-cases (left == 0)) [
  | inl e ↦ rw (e, read_chunks) (Takes-pure buf)
  | inr e ↦
      rw (e, read_chunks)
        (Takes-bind (Takes-no_eof (Takes-read_full (min left grow_chunk)))
          (λ p. Takes-read_chunks f (left - min left grow_chunk) (buf ++ p)))
]

pub Takes-read_n_bytes : (want : ℕ) → Takes (read_n_bytes want)
unfolding read_n_bytes
Takes-read_n_bytes want = elim (Bool-cases (want == 0)) [
  | inl e ↦ rw e (Takes-pure _)
  | inr e ↦ rw e (Takes-read_chunks (want / grow_chunk + 1) want [])
]

pub Takes-read_string : (w : Width) → Takes (read_string w)
unfolding read_string
Takes-read_string w8 = Takes-bind (Takes-read_fixed 1) Takes-read_full
Takes-read_string w16 = Takes-bind (Takes-read_fixed 2) Takes-read_full
Takes-read_string w32 = Takes-bind (Takes-read_fixed 4) Takes-read_n_bytes
Takes-read_string w64 = Takes-bind (Takes-read_fixed 8) Takes-read_n_bytes

pub Takes-read_bytes : (w : Width) → Takes (read_bytes w)
unfolding read_bytes
Takes-read_bytes w = Takes-bind (Takes-read_fixed (prefix_len w)) Takes-read_n_bytes

pub Takes-read_object_type : Takes read_object_type
unfolding read_object_type
Takes-read_object_type = Takes-read_string w8

-- A type name takes a byte at least: the byte of its length.
pub read_object_type-pos :
    (s : Source) (t : List ℕ) (n : ℕ) (s' : Source) → read_object_type s ≡ ok t n s' → 0 < n
unfolding read_object_type read_string read_fixed
read_object_type-pos s t n s' e = elim (Out-cases (read_full 1 s)) [
  | inl (p, m, u, r) ↦ elim (Out-cases (read_full (from_big_endian 0 p) u)) [
    | inl (q, k, v, r') ↦ ground (arith, r, r', read_full_exact 1 s p m u r)
    | inr (x, k, v, r') ↦ ground (arith, r, r')
  ]
  | inr (x, m, u, r) ↦ ground (arith, r)
]

pub read_fixed_exact :
    (w : ℕ) (s : Source) (v n : ℕ) (s' : Source) → read_fixed w s ≡ ok v n s' → n ≡ w
unfolding read_fixed
read_fixed_exact w s v n s' e = elim (Out-cases (read_full w s)) [
  | inl (p, m, u, r) ↦ ground (arith, r, read_full_exact w s p m u r)
  | inr (x, m, u, r) ↦ ground (arith, r)
]

-- ===== src/Astral/Fixed/Laws.antt =====
-- Fixed-width values: the bytes written, and the value read back.
use native.Mathlib.Nat.{pow-suc}
use astral_go.Base.{
  ℕ, zero, suc, ◌+◌, ◌*◌, ◌/◌, ◌%◌, ◌^◌, ◌<◌, ◌≡◌, refl, List, [], ◌∷◌, ◌++◌, length, length-append,
  arith, IsByte, IsBytes, All-append,
}
use astral_go.Wire.Out.{zero_on_fail}
use astral_go.Wire.Stream.{read_full}
use astral_go.Wire.Reads.{Reads, Reads-read_full, Reads-value, Reads-zero_on_fail}
use astral_go.Wire.Writes.{Writes, Writes-write, Writes-zero_on_fail}
use astral_go.Astral.Fixed.{big_endian, from_big_endian, write_fixed, read_fixed}

pub length-big_endian : (w v : ℕ) → length (big_endian w v) ≡ w
unfolding big_endian
length-big_endian zero v = refl
length-big_endian (suc w) v =
    omega
      (arith, length-append (big_endian w (v / 256)) (v % 256 ∷ []), length-big_endian w (v / 256))

pub big_endian-IsBytes : (w v : ℕ) → IsBytes (big_endian w v)
unfolding big_endian
big_endian-IsBytes zero v = tt
big_endian-IsBytes (suc w) v =
    All-append IsByte (big_endian w (v / 256)) _ (big_endian-IsBytes w (v / 256)) (omega arith)

from_big_endian-append :
    (acc : ℕ) (bs : List ℕ) (b : ℕ)
    → from_big_endian acc (bs ++ (b ∷ [])) ≡ from_big_endian acc bs * 256 + b
unfolding from_big_endian
from_big_endian-append acc [] b = refl
from_big_endian-append acc (x ∷ bs) b = from_big_endian-append (acc * 256 + x) bs b

pub from_big_endian-big_endian : (w v : ℕ) → v < 256 ^ w → from_big_endian 0 (big_endian w v) ≡ v
unfolding big_endian
from_big_endian-big_endian zero v h = unfold from_big_endian in omega arith
from_big_endian-big_endian (suc w) v h =
    let bound : v < 256 ^ w * 256 = rw pow-suc at h in
    omega (
      arith,
      from_big_endian-append 0 (big_endian w (v / 256)) (v % 256),
      from_big_endian-big_endian w (v / 256) (omega arith),
    )

pub Writes-write_fixed : (w v : ℕ) → Writes 0 0 (write_fixed w v) (big_endian w v)
unfolding write_fixed
Writes-write_fixed w v = Writes-zero_on_fail (Writes-write 0 (big_endian w v))

pub Reads-read_fixed : (w v : ℕ) → v < 256 ^ w → Reads 0 0 (read_fixed w) (big_endian w v) v
unfolding read_fixed
Reads-read_fixed w v h = rw (from_big_endian-big_endian w v h) at (
    Reads-value (λ s. zero_on_fail (read_full w s)) (from_big_endian 0)
      (Reads-zero_on_fail (Reads-read_full (big_endian w v) w (length-big_endian w v))))

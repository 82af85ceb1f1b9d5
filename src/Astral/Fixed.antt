-- ===== src/Astral/Fixed.antt =====
-- Fixed-width values in ByteOrder (big endian): astral/fixed_width.go, and the WriteTo and ReadFrom
-- of astral/uint_types.go that call it. A value of `w` bytes is a number below 256 ^ w.
pub mod Laws
use astral_go.Base.{ℕ, zero, suc, ◌+◌, ◌*◌, ◌/◌, ◌%◌, List, [], ◌∷◌, ◌++◌, arith}
use astral_go.Wire.Out.{◌>>=◌, pure, zero_on_fail}
use astral_go.Wire.Stream.{Reader, Writer, read_full, write}

-- The `w` bytes of a number, highest first.
unfoldable pub big_endian : ℕ → ℕ → List ℕ
big_endian zero v = []
big_endian (suc w) v = big_endian w (v / 256) ++ (v % 256 ∷ [])

-- The number that bytes stand for, highest first.
unfoldable pub from_big_endian : ℕ → List ℕ → ℕ
from_big_endian acc [] = acc
from_big_endian acc (b ∷ bs) = from_big_endian (acc * 256 + b) bs

unfoldable pub write_fixed : ℕ → ℕ → Writer
unfolding big_endian
write_fixed w v s = zero_on_fail (write (big_endian w v) s)

unfoldable pub read_fixed : ℕ → Reader ℕ
unfolding from_big_endian
read_fixed w = (λ s. zero_on_fail (read_full w s)) >>= λ bs. pure (from_big_endian 0 bs)

-- ===== src/Base/Words.antt =====
-- Machine-width bounds. A w-bit unsigned value is a native number below 2 ^ w; a byte slice is a
-- list of numbers below 256.
use Prim.Native.Nat.{ℕ, ◌<◌}
use mathlib.Core.List.{List}
use astral_go.Base.Lists.{All}

abbrev pub IsByte : ℕ → Type 0
IsByte b = b < 256

abbrev pub IsBytes : List ℕ → Type 0
IsBytes = All IsByte

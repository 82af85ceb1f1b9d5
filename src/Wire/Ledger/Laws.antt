-- ===== src/Wire/Ledger/Laws.antt =====
-- Arithmetic of the ledger, for the rules of `Reads` and `Writes`.
use astral_go.Base.{ℕ, ◌+◌, ◌≤◌, ◌≡◌, refl, Option, none, some, arith}
use astral_go.Wire.Ledger.{Ledger, Allows, spend}

pub spend-zero : (L : Option Ledger) → spend 0 0 L ≡ L
spend-zero none = refl
spend-zero (some b) = ground arith

pub spend-spend :
    (f g n m : ℕ) (L : Option Ledger) → spend g m (spend f n L) ≡ spend (f + g) (n + m) L
spend-spend f g n m none = refl
spend-spend f g n m (some b) = ground arith

pub Allows-left : (d f g n m : ℕ) (L : Option Ledger) → Allows d (f + g) (n + m) L → Allows d f n L
Allows-left d f g n m none h = omega arith
Allows-left d f g n m (some b) h = omega arith

pub Allows-right :
    (d f g n m : ℕ) (L : Option Ledger) → Allows d (f + g) (n + m) L → Allows d g m (spend f n L)
Allows-right d f g n m none h = omega arith
Allows-right d f g n m (some b) h = omega arith

-- More room does no harm.
pub Allows-weaken :
    (d d' f f' n : ℕ) (L : Option Ledger) → d ≤ d' → f ≤ f' → Allows d' f' n L → Allows d f n L
Allows-weaken d d' f f' n none p q h = omega arith
Allows-weaken d d' f f' n (some b) p q h = omega arith

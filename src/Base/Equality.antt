-- ===== src/Base/Equality.antt =====
-- Go's `comparable` constraint as an interface: `==` as a Boolean test that decides equality.
-- A Go string is the list of its bytes.
use Prim.Native.Nat.{ℕ}
use Prim.Native.Char.{code}
use Prim.Native.String.{String}
use mathlib.Core.Path.{◌≡◌, refl}
use mathlib.Core.Logic.{◌↔◌}
use mathlib.Core.Bool.{Bool, true, false, ◌&&◌}
use mathlib.Core.List.{List, [], ◌∷◌}
use native.Mathlib.Omega.{arith}
use astral_go.Base.Tests.{◌==◌, ==_iff, ltb, if◌then◌else◌}

pub record Comparable {ℓ} (A : Type ℓ) : Type ℓ where
  pub eq : A → A → Bool
  pub eq_iff : (a b : A) → (eq a b ≡ true) ↔ (a ≡ b)

infix 50 ◌=?◌
abbrev pub ◌=?◌ {ℓ} : {A : Type ℓ} ⦃c : Comparable A⦄ → A → A → Bool
◌=?◌ ⦃c⦄ = c.eq

instance abbrev pub nat_comparable : Comparable ℕ
nat_comparable = record { eq = ◌==◌; eq_iff = ==_iff }

-- The bytes of a text literal.
abbrev pub codes : String → List ℕ
codes String.[] = []
codes (String.◌∷◌ c s) = code c ∷ codes s

abbrev pub str_eq : List ℕ → List ℕ → Bool
str_eq [] [] = true
str_eq [] (y ∷ ys) = false
str_eq (x ∷ xs) [] = false
str_eq (x ∷ xs) (y ∷ ys) = (x == y) && str_eq xs ys

pub str_eq_refl : (xs : List ℕ) → str_eq xs xs ≡ true
str_eq_refl [] = refl
str_eq_refl (x ∷ xs) = ground (arith, str_eq_refl xs)

str_eq→eq : (xs ys : List ℕ) → str_eq xs ys ≡ true → xs ≡ ys
str_eq→eq [] [] h = refl
str_eq→eq [] (y ∷ ys) h = cc
str_eq→eq (x ∷ xs) [] h = cc
str_eq→eq (x ∷ xs) (y ∷ ys) h = ground (arith, str_eq→eq xs ys)

eq→str_eq : (xs ys : List ℕ) → xs ≡ ys → str_eq xs ys ≡ true
eq→str_eq xs ys h = rw h (str_eq_refl ys)

pub str_eq_iff : (xs ys : List ℕ) → (str_eq xs ys ≡ true) ↔ (xs ≡ ys)
str_eq_iff xs ys = (str_eq→eq xs ys, eq→str_eq xs ys)

instance abbrev pub str_comparable : Comparable (List ℕ)
str_comparable = record { eq = str_eq; eq_iff = str_eq_iff }

-- The order of Go's strings, and of bytes.Compare.
abbrev pub bytes_before : List ℕ → List ℕ → Bool
bytes_before a [] = false
bytes_before [] (y ∷ b) = true
bytes_before (x ∷ a) (y ∷ b) =
    let rest = bytes_before a b in if ltb x y then true else if ltb y x then false else rest

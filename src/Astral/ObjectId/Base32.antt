-- ===== src/Astral/ObjectId/Base32.antt =====
-- The zBase32 encoding of astral/object_id.go: encoding/base32 of the standard library with the
-- alphabet of the source, as far as ObjectID uses it. Five bytes are eight digits.
use mathlib.Core.Option
use astral_go.Base.{
  ℕ, zero, suc, ◌+◌, ◌*◌, ◌/◌, ◌%◌, ◌<◌, ◌≡◌, ◌≢◌, refl, sym, ap, ◌∙◌, Bool, true, false, ◌||◌,
  Option, none, some, List, [], ◌∷◌, map, ◌++◌, length, get_or, ◌==◌, ==_iff, if◌then◌else◌, codes,
  All, IsByte, IsBytes, nat_comparable, Bool-cases, Option-cases, inl, inr,
}
use astral_go.Sig.Members.{has, Nodup}
pub mod Laws

abbrev pub zbase32_char_set : List ℕ
zbase32_char_set = codes "ybndrfg8ejkmcpqxot1uwisza345h769"

unfoldable pub char : ℕ → ℕ
char d = get_or zbase32_char_set d 0

unfoldable pub index_in : ℕ → List ℕ → Option ℕ
index_in c [] = none
index_in c (x ∷ xs) = let rest = index_in c xs in if c == x then some 0 else Option.map suc rest

unfoldable pub digit_of : ℕ → Option ℕ
unfolding index_in
digit_of c = index_in c zbase32_char_set

-- Only a multiple of five bytes is encoded: 40.
unfoldable pub to_digits : List ℕ → List ℕ
to_digits (a ∷ b ∷ c ∷ d ∷ e ∷ rest) =
    (a / 8)
    ∷ (a % 8 * 4 + b / 64)
    ∷ (b / 2 % 32)
    ∷ (b % 2 * 16 + c / 16)
    ∷ (c % 16 * 2 + d / 128)
    ∷ (d / 4 % 32)
    ∷ (d % 4 * 8 + e / 32)
    ∷ (e % 32)
    ∷ to_digits rest
to_digits _ = []

unfoldable pub encode : List ℕ → List ℕ
unfolding to_digits char
encode bs = map char (to_digits bs)

-- The decoder drops line breaks first.
unfoldable pub strip_newlines : List ℕ → List ℕ
strip_newlines [] = []
strip_newlines (c ∷ cs) =
    let rest = strip_newlines cs in if (c == 10) || (c == 13) then rest else c ∷ rest

unfoldable pub digits : List ℕ → Option (List ℕ)
unfolding digit_of
digits [] = some []
digits (c ∷ cs) =
    let rest = digits cs in
    elim (digit_of c) [ none ↦ none | some d ↦ elim rest [ none ↦ none | some ds ↦ some (d ∷ ds) ] ]

unfoldable pub groups : List ℕ → Option (List ℕ)
groups [] = some []
groups (p ∷ q ∷ r ∷ s ∷ t ∷ u ∷ v ∷ w ∷ rest) = elim (groups rest) [
  | none ↦ none
  | some bs ↦ some (
      (p * 8 + q / 4)
      ∷ (q % 4 * 64 + r * 2 + s / 16)
      ∷ (s % 16 * 16 + t / 2)
      ∷ (t % 2 * 128 + u * 4 + v / 8)
      ∷ (v % 8 * 32 + w)
      ∷ bs)
]
groups _ = none

-- `none` for an error, and for an input with the padding '=', which gives fewer bytes than five for
-- its last eight characters.
unfoldable pub decode : List ℕ → Option (List ℕ)
unfolding strip_newlines digits groups
decode s = elim (digits (strip_newlines s)) [ none ↦ none | some ds ↦ groups ds ]

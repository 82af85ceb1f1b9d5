-- ===== src/Sig/Times.antt =====
-- How often a list of Go strings has a string, for sig/pool.go and astral/blueprints.go.
use astral_go.Base.{
  ℕ, suc, ◌+◌, ◌≤◌, ◌≡◌, refl, Bool, List, [], ◌∷◌, ◌++◌, ltb, if◌then◌else◌, str_eq, ◌=?◌,
  str_comparable, arith, Bool-cases, inl, inr, ap,
}
use astral_go.Sig.Members.{has, Nodup, eq_self, eq→≡}

unfoldable pub times : List ℕ → List (List ℕ) → ℕ
times x [] = 0
times x (n ∷ names) = let rest = times x names in if str_eq x n then suc rest else rest

pub times-append :
    (x : List ℕ) (ns ms : List (List ℕ)) → times x (ns ++ ms) ≡ times x ns + times x ms
unfolding times
times-append x [] ms = omega arith
times-append x (n ∷ ns) ms = ground (arith, times-append x ns ms)

-- A list that has its names once, counted.
abbrev pub once_where : Bool → ℕ
once_where b = if b then 1 else 0

pub has-times : (x : List ℕ) (ns : List (List ℕ)) → has x ns ≡ ltb 0 (times x ns)
unfolding times has
has-times x [] = ground arith
has-times x (n ∷ ns) = ground (arith, has-times x ns)

pub times-Nodup : (x : List ℕ) (ns : List (List ℕ)) → Nodup ns → times x ns ≡ once_where (has x ns)
unfolding times has
times-Nodup x [] d = refl
times-Nodup x (n ∷ ns) d = elim (Bool-cases (x =? n)) [
  | inl e ↦
      let same = ap (λ y. has y ns) (eq→≡ x n e) in
      ground (arith, e, same, d.0, times-Nodup x ns d.1)
  | inr e ↦ ground (arith, e, times-Nodup x ns d.1)
]

-- Names that are there at most once are distinct.
pub Nodup-times : (ns : List (List ℕ)) → ((x : List ℕ) → times x ns ≤ 1) → Nodup ns
unfolding times has
Nodup-times [] h = tt
Nodup-times (n ∷ ns) h =
    (ground (arith, h n, eq_self n, has-times n ns), Nodup-times ns (λ x. ground (arith, h x)))

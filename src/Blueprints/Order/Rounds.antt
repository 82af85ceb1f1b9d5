-- ===== src/Blueprints/Order/Rounds.antt =====
-- The rounds of orderBlueprintsByReference in astral/blueprints.go.
use astral_go.Base.{
  ℕ, zero, suc, ◌+◌, ◌≤◌, ◌<◌, ◌≡◌, ◌≢◌, refl, Bool, true, false, ◌||◌, not, none, List, [], ◌∷◌,
  length, length-append, ltb, ltb→lt, le→ltb, ◌==◌, str_comparable, arith, Bool-cases, inl, inr,
  ◌⊎◌, All,
}
use astral_go.Sig.Members.{has, Within}
use astral_go.Blueprints.Order.{Kahn, emit, pass, Outcome, done, finish, rounds}

-- What a round asks of a name that it emits.
abbrev pub IsFree : Kahn → List ℕ → Type 0
IsFree s n = (s.emitted n ≡ false) × (s.in_deg n ≡ 0)

-- A round that emits nothing leaves the state, and no name is free in it.
abbrev pub IsIdle : List (List ℕ) → Kahn → Type 0
IsIdle ns s = All (λ n. (s.emitted n ≡ true) ⊎ (s.in_deg n ≢ 0)) ns

-- The state in which the loop stops: all names are emitted, or the next round would emit none.
pub data Stops (names : List (List ℕ)) (P : Kahn → Type 0) : Outcome → Type 0 where
  full : (s : Kahn) → P s → length names ≤ length s.out → Stops names P (done s.out none)
  idle :
      (s : Kahn)
      → P s
      → length s.out < length names
      → IsIdle names s
      → Stops names P (finish names s)

module _ (adj : List ℕ → List (List ℕ)) (names : List (List ℕ)) where
  -- What emitting a free name keeps, a round keeps.
  pass_rule :
      (P : Kahn → Type 0)
      → ((n : List ℕ) (s : Kahn) → has n names ≡ true → IsFree s n → P s → P (emit adj n s))
      → (ns : List (List ℕ)) (s : Kahn) (progress : Bool) → Within ns names
      → P s
      → P (pass adj ns (s, progress)).0
  unfolding pass
  pass_rule P keep [] s progress w p = p
  pass_rule P keep (n ∷ ns) s progress w p =
      elim (Bool-cases (s.emitted n || not (s.in_deg n == 0))) [
        | inl e ↦ rw (e, pass) (pass_rule P keep ns s progress w.1 p)
        | inr e ↦
            rw (e, pass)
              (pass_rule P keep ns (emit adj n s) true w.1 (keep n s w.0 (ground (arith, e)) p))
      ]

  pass_keeps : (ns : List (List ℕ)) (s : Kahn) → (pass adj ns (s, true)).1 ≡ true
  unfolding pass
  pass_keeps [] s = refl
  pass_keeps (n ∷ ns) s = elim (Bool-cases (s.emitted n || not (s.in_deg n == 0))) [
    | inl e ↦ rw (e, pass) (pass_keeps ns s)
    | inr e ↦ rw (e, pass) (pass_keeps ns (emit adj n s))
  ]

  pass-IsIdle :
      (ns : List (List ℕ)) (s : Kahn)
      → (pass adj ns (s, false)).1 ≡ false
      → ((pass adj ns (s, false)).0 ≡ s) × IsIdle ns s
  unfolding pass
  pass-IsIdle [] s h = (refl, tt)
  pass-IsIdle (n ∷ ns) s h = elim (Bool-cases (s.emitted n || not (s.in_deg n == 0))) [
    | inl e ↦
        let rest = pass-IsIdle ns s (rw (e, pass) at h) in
        rw (e, pass) (rest.0, (ground (arith, e), rest.1))
    | inr e ↦
        absurd (let kept = rw (e, pass) at h in ground (arith, kept, pass_keeps ns (emit adj n s)))
  ]

  length-emit : (n : List ℕ) (s : Kahn) → length (emit adj n s).out ≡ suc (length s.out)
  unfolding emit
  length-emit n s = omega (arith, length-append s.out (n ∷ []))

  pass_grows :
      (ns : List (List ℕ)) (s : Kahn) (progress : Bool)
      → (length s.out ≤ length (pass adj ns (s, progress)).0.out)
        × ((progress ≡ false)
            → (pass adj ns (s, progress)).1 ≡ true
            → length s.out < length (pass adj ns (s, progress)).0.out)
  unfolding pass
  pass_grows [] s progress = ground arith
  pass_grows (n ∷ ns) s progress = elim (Bool-cases (s.emitted n || not (s.in_deg n == 0))) [
    | inl e ↦ rw (e, pass) (pass_grows ns s progress)
    | inr e ↦
        let more = (pass_grows ns (emit adj n s) true).0 in
        rw (e, pass)
          (omega (arith, more, length-emit n s), λ p q. omega (arith, more, length-emit n s))
  ]

  pub rounds_rule :
      (P : Kahn → Type 0)
      → ((n : List ℕ) (s : Kahn) → has n names ≡ true → IsFree s n → P s → P (emit adj n s))
      → Within names names
      → (fuel : ℕ) (s : Kahn) → length names ≤ fuel + length s.out
      → P s
      → Stops names P (rounds adj names fuel s)
  unfolding rounds
  rounds_rule P keep w zero s h p =
      rw (le→ltb (length s.out) (length names) (omega arith)) (full s p (omega arith))
  rounds_rule P keep w (suc fuel) s h p = elim (Bool-cases (ltb (length s.out) (length names))) [
    | inr e ↦ rw (e, rounds) (full s p (ground arith))
    | inl e ↦ elim (Bool-cases (pass adj names (s, false)).1) [
      | inl d ↦
          rw (e, rounds, d)
            (rounds_rule P keep w fuel _ (omega (arith, (pass_grows names s false).1 refl d))
              (pass_rule P keep names s false w p))
      | inr d ↦
          let (same, free) = pass-IsIdle names s d in
          rw (e, rounds, d, same) (idle s p (ltb→lt _ _ e) free)
    ]
  ]

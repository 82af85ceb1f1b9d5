-- ===== src/Blueprints/Order/Cycles.antt =====
-- ErrBlueprintCycle of orderBlueprintsByReference in astral/blueprints.go.
use mathlib.Core.Path.{subst}
use astral_go.Base.{
  same_value, ℕ, zero, suc, ◌<◌, ◌≡◌, ◌≢◌, refl, ap, sym, ◌∙◌, Bool, true, false, ◌&&◌, not, none,
  some, List, [], ◌∷◌, length, ◌=?◌, str_comparable, arith, Bool-cases, inl, inr, ◌⊎◌, All,
  All-weaken, Any, Any-weaken,
}
use astral_go.Sig.Members.{has, Nodup, length-Within, All-has, has-All, eq→≡}
use astral_go.Blueprints.Spec.{Blueprint}
use astral_go.Blueprints.Order.{
  Kahn, flush, Outcome, done, finish, is_skipped, sort_strings, type_names, order_by_reference,
}
use astral_go.Blueprints.Order.Names.{has-sort_strings, Nodup-sort_strings}
use astral_go.Blueprints.Order.Counts.{Pairs, pairs, pending}
use astral_go.Blueprints.Order.Rounds.{IsIdle, Stops, full, idle}
use astral_go.Blueprints.Order.Laws.{Inv, none_pending, flush-stuck}
use astral_go.Blueprints.Order.References.{
  EveryOther, EveryOther-Every, Some, Every-pairs, pairs-Some,
}
use astral_go.Blueprints.Order.Correct.{State, Returns, stuck_of, order_by_reference-Stops}

module _ (names : List (List ℕ)) (es : Pairs) (s : Kahn) (rank : List ℕ → ℕ) where
  emitted_below :
      Inv es names s
      → IsIdle names s
      → All (λ e. (has e.0 names ≡ true) × (rank e.0 < rank e.1)) es
      → (k : ℕ) (n : List ℕ) → rank n < k
      → has n names ≡ true
      → s.emitted n ≡ true
  emitted_below v i w zero n h m = absurd (omega arith)
  emitted_below v i w (suc k) n h m =
      elim (All-has (λ n. (s.emitted n ≡ true) ⊎ (s.in_deg n ≢ 0)) n names i m) [
        | inl e ↦ e
        | inr more ↦ absurd (
            more (
              v.counted n
              ∙ none_pending s.emitted n es (
                  All-weaken _ _
                    (λ e r. elim (Bool-cases (n =? e.1)) [
                      | inr other ↦ inl other
                      | inl same ↦ inr (
                          emitted_below v i w k e.0
                            (omega (arith, r.1, h, ap rank (eq→≡ n e.1 same))) r.0)
                    ])
                    es w)))
      ]

acyclic_at :
    (names : List (List ℕ)) (es : Pairs) (rank : List ℕ → ℕ) (o : Outcome)
    → Nodup names
    → All (λ e. (has e.0 names ≡ true) × (rank e.0 < rank e.1)) es
    → Stops names (Inv es names) o
    → Returns (λ out err. err ≡ none) o
acyclic_at names es rank _ d w (full s v l) = (s.out, none, refl, refl)
acyclic_at names es rank _ d w (idle s v l i) =
    let all_out =
      has-All (λ n. has n s.out ≡ true) names
        (λ n m.
          sym (v.tracks.same n)
          ∙ emitted_below names es s rank v i w (suc (rank n)) n (omega arith) m) in
    absurd (omega (arith, l, length-Within names s.out d all_out))

-- Where the names are distinct and some numbering of the names goes down along every reference to
-- another name of the input, orderBlueprintsByReference returns no error; references to the name
-- itself, to no name and to names that are not in the input do not matter.
pub order_by_reference_acyclic :
    (bps : List Blueprint) (rank : List ℕ → ℕ)
    → Nodup (type_names bps)
    → EveryOther (λ ref name. rank ref < rank name) (type_names bps) bps
    → Returns (λ out err. err ≡ none) (order_by_reference bps)
order_by_reference_acyclic bps rank d w =
    let in_set = type_names bps in
    acyclic_at _ _ rank _ (Nodup-sort_strings in_set d)
      (All-weaken _ _ (λ e r. (has-sort_strings e.0 in_set ∙ r.0, r.1)) (pairs in_set bps)
        (Every-pairs (λ ref name. rank ref < rank name) in_set bps
          (EveryOther-Every (λ ref name. rank ref < rank name) in_set bps w)))
      (order_by_reference-Stops bps)

pending_some :
    (emitted : List ℕ → Bool) (n : List ℕ) (es : Pairs)
    → pending emitted n es ≢ 0
    → Any (λ e. ((n =? e.1) ≡ true) × (emitted e.0 ≡ false)) es
unfolding pending
pending_some emitted n [] h = absurd (h refl)
pending_some emitted n (e ∷ es) h = elim (Bool-cases ((n =? e.1) && not (emitted e.0))) [
  | inl waits ↦ inl (ground (arith, waits))
  | inr no_wait ↦ inr (pending_some emitted n es (ground (arith, h, no_wait)))
]

-- What holds of the stuck names of an error.
abbrev IsStuck : List Blueprint → List (List ℕ) → Type 0
IsStuck bps stuck =
    (Nodup (type_names bps) → stuck ≢ [])
    × All
        (λ n. Some (λ ref name. ((n =? name) ≡ true) × (has ref stuck ≡ true)) (type_names bps) bps)
        stuck

Some-weaken :
    (R S : List ℕ → List ℕ → Type 0) (in_set : List (List ℕ)) (bps : List Blueprint)
    → ((ref name : List ℕ) → has ref in_set ≡ true → R ref name → S ref name)
    → Some R in_set bps
    → Some S in_set bps
unfolding is_skipped
Some-weaken R S in_set bps h found =
    Any-weaken _ _ (λ b. Any-weaken _ _ (λ f r. (r.0, h _ _ (ground (arith, r.0)) r.1)) b.fields)
      bps found

module _ (bps : List Blueprint) (s : Kahn) where
  abbrev names : List (List ℕ)
  names = sort_strings (type_names bps)

  abbrev left : List (List ℕ)
  left = (flush names s []).1

  left_iff : (x : List ℕ) → has x left ≡ (has x names && not (s.emitted x))
  unfolding has
  left_iff x = flush-stuck names s [] x

  waits :
      State bps s
      → IsIdle names s
      → (n : List ℕ) → has n left ≡ true
      → Some (λ ref name. ((n =? name) ≡ true) × (has ref left ≡ true)) (type_names bps) bps
  waits v i n m =
      elim (All-has (λ n. (s.emitted n ≡ true) ⊎ (s.in_deg n ≢ 0)) n names i
        (ground (arith, m, left_iff n))) [
          | inl e ↦ absurd (ground (arith, e, m, left_iff n))
          | inr more ↦
              let R : List ℕ → List ℕ → Type 0 =
                λ ref name. ((n =? name) ≡ true) × (s.emitted ref ≡ false) in
              Some-weaken R (λ ref name. ((n =? name) ≡ true) × (has ref left ≡ true))
                (type_names bps) bps
                (λ ref name known r. (
                  r.0,
                  ground (arith, left_iff ref, r.1, known, has-sort_strings ref (type_names bps)),
                ))
                (pairs-Some R (type_names bps) bps (
                  pending_some s.emitted n (pairs (type_names bps) bps)
                    (λ z. more (v.counted n ∙ z))))
        ]

  left-IsStuck : State bps s → length s.out < length names → IsIdle names s → IsStuck bps left
  unfolding has
  left-IsStuck v l i = (
    λ d e. omega (
      arith,
      l,
      length-Within names s.out (Nodup-sort_strings (type_names bps) d) (
          has-All (λ n. has n s.out ≡ true) names
            (λ n m. ground (arith, m, left_iff n, v.tracks.same n, ap (has n) e))),
    ),
    has-All _ left (waits v i),
  )

Stops-IsStuck :
    (bps : List Blueprint) (o : Outcome) (stuck : List (List ℕ))
    → Stops (sort_strings (type_names bps)) (State bps) o
    → stuck_of o ≡ some stuck
    → IsStuck bps stuck
unfolding stuck_of finish
Stops-IsStuck bps _ stuck (full s v l) h = absurd cc
Stops-IsStuck bps _ stuck (idle s v l i) h =
    subst (IsStuck bps) (same_value h) (left-IsStuck bps s v l i)

-- Where orderBlueprintsByReference returns ErrBlueprintCycle, each of the names that the error
-- lists has a Blueprint that references another name of the list, so that the references among them
-- have a cycle; where the names of the input are distinct, the error lists at least one.
pub order_by_reference_cycle :
    (bps : List Blueprint) (out stuck : List (List ℕ))
    → order_by_reference bps ≡ done out (some stuck)
    → (Nodup (type_names bps) → stuck ≢ [])
      × All
          (λ n.
            Some (λ ref name. ((n =? name) ≡ true) × (has ref stuck ≡ true)) (type_names bps) bps)
          stuck
unfolding stuck_of
order_by_reference_cycle bps out stuck h =
    Stops-IsStuck bps (order_by_reference bps) stuck (order_by_reference-Stops bps) (ap stuck_of h)

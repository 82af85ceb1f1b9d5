-- ===== src/Blueprints/Order/Correct.antt =====
-- orderBlueprintsByReference of astral/blueprints.go against what its comment promises.

use astral_go.Base.{
  ℕ, ◌≤◌, ◌≡◌, refl, ap, sym, ◌∙◌, true, false, Option, none, some, List, [], ◌∷◌, ◌++◌, length,
  ◌=?◌, str_comparable, arith, Bool-cases, inl, inr, ◌⊎◌,
}
use astral_go.Sig.Members.{has, Nodup, length-Within, has-All}
use astral_go.Blueprints.Spec.{Blueprint}
use astral_go.Blueprints.Order.{
  Edges, Kahn, blueprint_edges, no_edges, flush, Outcome, done, finish, sort_strings, type_names,
  order_by_reference,
}
use astral_go.Blueprints.Order.Names.{has-sort_strings, length-sort_strings}
use astral_go.Blueprints.Order.Counts.{Pairs, pairs, pending, blueprint_edges-Holds}
use astral_go.Blueprints.Order.Rounds.{Stops, full, idle, rounds_rule}
use astral_go.Blueprints.Order.Laws.{IsSorted, Inv, emit-Inv, flush-Tracks, flush-emitted}
use astral_go.Blueprints.Order.References.{Every, pairs-Every}

-- Every name of the list comes after the names that its Blueprints refer to, in `before` or earlier
-- in the list.
unfoldable pub IsOrdered : List Blueprint → List (List ℕ) → List (List ℕ) → Type 0
IsOrdered bps before [] = Unit
IsOrdered bps before (n ∷ ns) =
    Every (λ ref name. ((n =? name) ≡ false) ⊎ (has ref before ≡ true)) (type_names bps) bps
    × IsOrdered bps (before ++ (n ∷ [])) ns

abbrev pub State : List Blueprint → Kahn → Type 0
State bps = Inv (pairs (type_names bps) bps) (sort_strings (type_names bps))

start-Inv :
    (es : Pairs) (names : List (List ℕ)) (g : Edges)
    → ((d : List ℕ) → g.in_deg d ≡ pending (λ k. false) d es)
    → Inv es names (record { in_deg = g.in_deg; emitted = λ k. false; out = [] })
unfolding has IsSorted
start-Inv es names g h = record {
  tracks = record { same = λ x. refl; distinct = tt };
  counted = h;
  within = λ x p. absurd cc;
  sorted = tt;
}

pub order_by_reference-Stops :
    (bps : List Blueprint)
    → Stops (sort_strings (type_names bps)) (State bps) (order_by_reference bps)
unfolding order_by_reference type_names sort_strings pairs pending
order_by_reference-Stops [] =
    full (record { in_deg = λ k. 0; emitted = λ k. false; out = [] })
      (start-Inv [] [] (record { in_deg = λ k. 0; adj = λ k. [] }) (λ d. refl)) (omega arith)
order_by_reference-Stops (b ∷ bps) =
    let in_set = type_names (b ∷ bps) in
    let built = blueprint_edges-Holds in_set (b ∷ bps) in
    let g = blueprint_edges in_set (b ∷ bps) no_edges in
    rounds_rule g.adj (sort_strings in_set) (State (b ∷ bps))
      (λ n s m free v.
        emit-Inv (pairs in_set (b ∷ bps)) (sort_strings in_set) g.adj built.adjacent n s m free v)
      (has-All (λ x. has x (sort_strings in_set) ≡ true) (sort_strings in_set) (λ x m. m))
      (length in_set) _ (omega (arith, length-sort_strings in_set)) (start-Inv _ _ g built.counted)

IsSorted-IsOrdered :
    (bps : List Blueprint) (before ns : List (List ℕ))
    → IsSorted (pairs (type_names bps) bps) before ns
    → IsOrdered bps before ns
unfolding IsSorted IsOrdered
IsSorted-IsOrdered bps before [] h = tt
IsSorted-IsOrdered bps before (n ∷ ns) h = (
  pairs-Every (λ ref name. ((n =? name) ≡ false) ⊎ (has ref before ≡ true)) (type_names bps) bps
      h.0,
  IsSorted-IsOrdered bps (before ++ (n ∷ [])) ns h.1,
)

out_of : Outcome → List (List ℕ)
out_of (done out err) = out
out_of Outcome.out_of_fuel = []

unfoldable pub stuck_of : Outcome → Option (List (List ℕ))
stuck_of (done out err) = err
stuck_of Outcome.out_of_fuel = none

sorted_at :
    (bps : List Blueprint) (o : Outcome)
    → Stops (sort_strings (type_names bps)) (State bps) o
    → stuck_of o ≡ none
    → IsOrdered bps [] (out_of o)
unfolding out_of stuck_of finish
sorted_at bps _ (full s v l) h = IsSorted-IsOrdered bps [] s.out v.sorted
sorted_at bps _ (idle s v l i) h = absurd cc

-- Where orderBlueprintsByReference returns no error, every name comes after all names of the input
-- that a field of its Blueprints references, itself excepted.
pub order_by_reference-IsOrdered :
    (bps : List Blueprint) (out : List (List ℕ))
    → order_by_reference bps ≡ done out none
    → IsOrdered bps [] out
unfolding out_of stuck_of
order_by_reference-IsOrdered bps out h =
    let ordered = sorted_at bps (order_by_reference bps) (order_by_reference-Stops bps) in
    rw (ap out_of h) at (ordered (ap stuck_of h))

-- What the call returns.
abbrev pub Returns : (List (List ℕ) → Option (List (List ℕ)) → Type 0) → Outcome → Type 0
Returns P o =
    (out : List (List ℕ)) × (err : Option (List (List ℕ))) × (o ≡ done out err) × P out err

all_emitted :
    (names : List (List ℕ)) (s : Kahn) (es : Pairs)
    → Inv es names s
    → length names ≤ length s.out
    → (x : List ℕ) → has x s.out ≡ has x names
unfolding has
all_emitted names s es v l x = elim (Bool-cases (has x s.out)) [
  | inl e ↦ ground (arith, e, v.within x)
  | inr e ↦ elim (Bool-cases (has x names)) [
    | inr d ↦ e ∙ sym d
    | inl d ↦ absurd (
        omega (
          arith,
          l,
          length-Within (x ∷ s.out) names (e, v.tracks.distinct)
              (d, has-All (λ y. has y names ≡ true) s.out v.within),
        ))
  ]
]

complete_at :
    (names : List (List ℕ)) (es : Pairs) (o : Outcome)
    → Stops names (Inv es names) o
    → Returns (λ out err. Nodup out × ((x : List ℕ) → has x out ≡ has x names)) o
unfolding finish
complete_at names es _ (full s v l) =
    (s.out, none, refl, (v.tracks.distinct, all_emitted names s es v l))
complete_at names es _ (idle s v l i) =
    let after = flush-Tracks names s [] v.tracks in
    (
      (flush names s []).0.out,
      some (flush names s []).1,
      refl,
      (
        after.distinct,
        λ x. ground (arith, after.same x, flush-emitted names s [] x, v.tracks.same x, v.within x),
      ),
    )

-- orderBlueprintsByReference ends for every input, also where references have a cycle, and the
-- names it returns are those of the input, each once.
pub order_by_reference_complete :
    (bps : List Blueprint)
    → Returns
        (λ out err. Nodup out × ((x : List ℕ) → has x out ≡ has x (type_names bps)))
        (order_by_reference bps)
order_by_reference_complete bps =
    let (out, err, e, (d, m)) = complete_at _ _ _ (order_by_reference-Stops bps) in
    (out, err, e, (d, λ x. m x ∙ has-sort_strings x (type_names bps)))

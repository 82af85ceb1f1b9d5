-- ===== src/Blueprints/Order.antt =====
-- orderBlueprintsByReference of astral/blueprints.go: the names of Blueprints in dependency order.
pub mod Names
pub mod Counts
pub mod Rounds
pub mod Laws
pub mod References
pub mod Correct
pub mod Cycles
use astral_go.Base.{
  ℕ, zero, suc, ◌+◌, ◌-◌, Bool, true, false, ◌||◌, not, Option, none, some, List, [], ◌∷◌, ◌++◌,
  map, length, ltb, ◌==◌, if◌then◌else◌, ◌=?◌, str_comparable, bytes_before,
}
use astral_go.Sig.Members.{has}
use astral_go.Blueprints.Spec.{Field, Blueprint, referenced_type}

-- sort.Strings of the standard library, as an insertion sort by bytes.
unfoldable pub insert_string : List ℕ → List (List ℕ) → List (List ℕ)
insert_string s [] = s ∷ []
insert_string s (t ∷ ts) =
    let rest = insert_string s ts in if bytes_before t s then t ∷ rest else s ∷ t ∷ ts

unfoldable pub sort_strings : List (List ℕ) → List (List ℕ)
unfolding insert_string
sort_strings [] = []
sort_strings (s ∷ ss) = insert_string s (sort_strings ss)

-- The maps inDeg and adj; a missing key has no edges.
pub record Edges : Type 0 where
  pub in_deg : List ℕ → ℕ
  pub adj : List ℕ → List (List ℕ)

unfoldable pub add_edge : List ℕ → List ℕ → Edges → Edges
add_edge ref name g = record {
  in_deg = λ k. if k =? name then g.in_deg k + 1 else g.in_deg k;
  adj = λ k. if k =? ref then g.adj k ++ (name ∷ []) else g.adj k;
}

unfoldable pub is_skipped : List (List ℕ) → List ℕ → List ℕ → Bool
unfolding has
is_skipped in_set name ref = (length ref == 0) || (not (has ref in_set) || (ref =? name))

unfoldable pub field_edges : List (List ℕ) → List ℕ → List Field → Edges → Edges
unfolding add_edge is_skipped
field_edges in_set name [] g = g
field_edges in_set name (f ∷ fs) g =
    let ref = referenced_type f.spec in
    field_edges in_set name fs (if is_skipped in_set name ref then g else add_edge ref name g)

unfoldable pub blueprint_edges : List (List ℕ) → List Blueprint → Edges → Edges
unfolding field_edges
blueprint_edges in_set [] g = g
blueprint_edges in_set (b ∷ bps) g =
    blueprint_edges in_set bps (field_edges in_set b.type_name b.fields g)

unfoldable pub no_edges : Edges
no_edges = record { in_deg = λ k. 0; adj = λ k. [] }

pub record Kahn : Type 0 where
  pub in_deg : List ℕ → ℕ
  pub emitted : List ℕ → Bool
  pub out : List (List ℕ)

-- inDeg[d]-- for the names of the list. A counter counts the references that are not emitted, so it
-- is not 0 there.
unfoldable pub release : List (List ℕ) → (List ℕ → ℕ) → List ℕ → ℕ
release [] deg = deg
release (d ∷ ds) deg = release ds (λ k. if k =? d then deg k - 1 else deg k)

unfoldable pub mark : List ℕ → (List ℕ → Bool) → List ℕ → Bool
mark n emitted = λ k. if k =? n then true else emitted k

unfoldable pub emit : (List ℕ → List (List ℕ)) → List ℕ → Kahn → Kahn
unfolding release mark
emit adj n s = record {
  in_deg = release (adj n) s.in_deg;
  emitted = mark n s.emitted;
  out = s.out ++ (n ∷ []);
}

-- One round over the sorted names, with the flag `progress`.
unfoldable pub pass : (List ℕ → List (List ℕ)) → List (List ℕ) → Kahn × Bool → Kahn × Bool
unfolding emit
pass adj [] s = s
pass adj (n ∷ ns) (s, progress) =
    pass adj ns
      (if s.emitted n || not (s.in_deg n == 0) then (s, progress) else (emit adj n s, true))

abbrev pub append_stuck : List ℕ → Kahn → Kahn
unfolding mark
append_stuck n s = record { in_deg = s.in_deg; emitted = mark n s.emitted; out = s.out ++ (n ∷ []) }

-- The names that no round can emit, appended at the end.
unfoldable pub flush : List (List ℕ) → Kahn → List (List ℕ) → Kahn × List (List ℕ)
unfolding mark
flush [] s stuck = (s, stuck)
flush (n ∷ ns) s stuck =
    let rest = flush ns (append_stuck n s) (stuck ++ (n ∷ [])) in
    let kept = flush ns s stuck in if s.emitted n then kept else rest

-- `done` has the names and the stuck ones of an ErrBlueprintCycle.
pub data Outcome : Type 0 where
  done : List (List ℕ) → Option (List (List ℕ)) → Outcome
  out_of_fuel : Outcome

unfoldable pub finish : List (List ℕ) → Kahn → Outcome
unfolding flush
finish names s = let flushed = flush names s [] in done flushed.0.out (some flushed.1)

unfoldable pub rounds : (List ℕ → List (List ℕ)) → List (List ℕ) → ℕ → Kahn → Outcome
unfolding pass finish
rounds adj names zero s = if ltb (length s.out) (length names) then out_of_fuel else done s.out none
rounds adj names (suc fuel) s = elim (ltb (length s.out) (length names)) [
  | false ↦ done s.out none
  | true ↦
      let round = pass adj names (s, false) in
      elim round.1 [ true ↦ rounds adj names fuel round.0 | false ↦ finish names round.0 ]
]

unfoldable pub type_names : List Blueprint → List (List ℕ)
type_names bps = map (λ b. b.type_name) bps

unfoldable pub order_by_reference : List Blueprint → Outcome
unfolding type_names blueprint_edges no_edges sort_strings rounds
order_by_reference [] = done [] none
order_by_reference (b ∷ bps) =
    let in_set = type_names (b ∷ bps) in
    let g = blueprint_edges in_set (b ∷ bps) no_edges in
    rounds g.adj (sort_strings in_set) (length in_set)
      (record { in_deg = g.in_deg; emitted = λ k. false; out = [] })

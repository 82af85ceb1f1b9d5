-- ===== src/Blueprints/Order/Counts.antt =====
-- The reference edges of orderBlueprintsByReference in astral/blueprints.go as a list of pairs, and
-- what the counters and the adjacency lists of the code hold of them.
use astral_go.Base.{
  ℕ, ◌+◌, ◌-◌, ◌≡◌, refl, ap, Bool, false, ◌&&◌, not, List, [], ◌∷◌, ◌++◌, append-nil, append_assoc,
  if◌then◌else◌, ◌=?◌, str_comparable, arith, Bool-cases, inl, inr, sym,
}
use astral_go.Sig.Members.{eq_sym, eq→≡}
use astral_go.Blueprints.Spec.{Field, Blueprint, referenced_type}
use astral_go.Blueprints.Order.{
  Edges, add_edge, is_skipped, field_edges, blueprint_edges, no_edges, release, mark,
}

-- From the name referenced to the name that refers to it.
abbrev pub Pairs : Type 0
Pairs = List (List ℕ × List ℕ)

unfoldable pub field_pairs : List (List ℕ) → List ℕ → List Field → Pairs
field_pairs in_set name [] = []
field_pairs in_set name (f ∷ fs) =
    let rest = field_pairs in_set name fs in
    let ref = referenced_type f.spec in
    if is_skipped in_set name ref then rest else (ref, name) ∷ rest

unfoldable pub pairs : List (List ℕ) → List Blueprint → Pairs
unfolding field_pairs
pairs in_set [] = []
pairs in_set (b ∷ bps) = field_pairs in_set b.type_name b.fields ++ pairs in_set bps

-- How many references of a name are not emitted.
unfoldable pub pending : (List ℕ → Bool) → List ℕ → Pairs → ℕ
pending emitted d [] = 0
pending emitted d (e ∷ es) =
    (if (d =? e.1) && not (emitted e.0) then 1 else 0) + pending emitted d es

unfoldable pub targets : List ℕ → Pairs → List (List ℕ)
targets r [] = []
targets r (e ∷ es) = let rest = targets r es in if r =? e.0 then e.1 ∷ rest else rest

unfoldable pub times : List ℕ → List (List ℕ) → ℕ
times d [] = 0
times d (x ∷ xs) = (if d =? x then 1 else 0) + times d xs

pub release-times :
    (ds : List (List ℕ)) (deg : List ℕ → ℕ) (d : List ℕ) → release ds deg d ≡ deg d - times d ds
unfolding release times
release-times [] deg d = omega arith
release-times (x ∷ ds) deg d =
    ground (arith, release-times ds (λ k. if k =? x then deg k - 1 else deg k) d)

pub pending-mark :
    (emitted : List ℕ → Bool) (n d : List ℕ) (es : Pairs)
    → emitted n ≡ false
    → pending emitted d es ≡ pending (mark n emitted) d es + times d (targets n es)
unfolding pending mark targets times
pending-mark emitted n d [] h = refl
pending-mark emitted n d ((r, t) ∷ es) h = elim (Bool-cases (r =? n)) [
  | inl e ↦
      let same = ap emitted (eq→≡ r n e) in
      ground (arith, same, eq_sym r n, pending-mark emitted n d es h)
  | inr e ↦ ground (arith, eq_sym r n, pending-mark emitted n d es h)
]

pending-append :
    (emitted : List ℕ → Bool) (d : List ℕ) (es fs : Pairs)
    → pending emitted d (es ++ fs) ≡ pending emitted d es + pending emitted d fs
unfolding pending
pending-append emitted d [] fs = omega arith
pending-append emitted d (e ∷ es) fs = omega (arith, pending-append emitted d es fs)

targets-append : (r : List ℕ) (es fs : Pairs) → targets r (es ++ fs) ≡ targets r es ++ targets r fs
unfolding targets
targets-append r [] fs = refl
targets-append r (e ∷ es) fs = elim (Bool-cases (r =? e.0)) [
  | inl h ↦ rw h (ap (λ l. e.1 ∷ l) (targets-append r es fs))
  | inr h ↦ rw h (targets-append r es fs)
]

-- Both maps of the code, where nothing has been emitted.
pub record Holds (es : Pairs) (g : Edges) : Type 0 where
  pub counted : (d : List ℕ) → g.in_deg d ≡ pending (λ k. false) d es
  pub adjacent : (r : List ℕ) → g.adj r ≡ targets r es

Holds-add_edge :
    (es : Pairs) (ref name : List ℕ) (g : Edges)
    → Holds es g
    → Holds (es ++ ((ref, name) ∷ [])) (add_edge ref name g)
unfolding add_edge pending targets
Holds-add_edge es ref name g h = record {
  counted = λ d. ground (arith, h.counted d, pending-append (λ k. false) d es ((ref, name) ∷ []));
  adjacent = λ r.
      ground
        (arith, h.adjacent r, targets-append r es ((ref, name) ∷ []), append-nil (targets r es));
}

Holds-field_edges :
    (in_set : List (List ℕ)) (name : List ℕ) (fs : List Field) (es : Pairs) (g : Edges)
    → Holds es g
    → Holds (es ++ field_pairs in_set name fs) (field_edges in_set name fs g)
unfolding field_edges field_pairs
Holds-field_edges in_set name [] es g h = rw (append-nil es) h
Holds-field_edges in_set name (f ∷ fs) es g h =
    elim (Bool-cases (is_skipped in_set name (referenced_type f.spec))) [
      | inl e ↦ rw e (Holds-field_edges in_set name fs es g h)
      | inr e ↦
          rw
            (
              e,
              sym (
                  append_assoc es ((referenced_type f.spec, name) ∷ [])
                    (field_pairs in_set name fs)),
            )
            (Holds-field_edges in_set name fs (es ++ ((referenced_type f.spec, name) ∷ [])) _
              (Holds-add_edge es _ name g h))
    ]

Holds-blueprint_edges :
    (in_set : List (List ℕ)) (bps : List Blueprint) (es : Pairs) (g : Edges)
    → Holds es g
    → Holds (es ++ pairs in_set bps) (blueprint_edges in_set bps g)
unfolding blueprint_edges pairs
Holds-blueprint_edges in_set [] es g h = rw (append-nil es) h
Holds-blueprint_edges in_set (b ∷ bps) es g h =
    rw (sym (append_assoc es (field_pairs in_set b.type_name b.fields) (pairs in_set bps))) (
      Holds-blueprint_edges in_set bps (es ++ field_pairs in_set b.type_name b.fields) _
        (Holds-field_edges in_set b.type_name b.fields es g h))

pub blueprint_edges-Holds :
    (in_set : List (List ℕ)) (bps : List Blueprint)
    → Holds (pairs in_set bps) (blueprint_edges in_set bps no_edges)
unfolding no_edges pending targets
blueprint_edges-Holds in_set bps =
    Holds-blueprint_edges in_set bps [] no_edges
      (record { counted = λ d. refl; adjacent = λ r. refl })

-- ===== src/Blueprints/Order/Laws.antt =====
-- What orderBlueprintsByReference of astral/blueprints.go keeps true in its rounds.
use astral_go.Base.{
  ℕ, ◌≡◌, refl, ap, ◌∙◌, Bool, true, false, ◌||◌, ◌&&◌, not, List, [], ◌∷◌, ◌++◌, ◌=?◌,
  str_comparable, arith, Bool-cases, inl, inr, ◌⊎◌, All, append-nil, append_assoc,
}
use astral_go.Sig.Members.{has, Nodup, Nodup-snoc, has-append, eq→≡}
use astral_go.Blueprints.Order.{Kahn, append_stuck, mark, emit, flush, release}
use astral_go.Blueprints.Order.Counts.{Pairs, pending, targets, times, release-times, pending-mark}
use astral_go.Blueprints.Order.Rounds.{IsFree}

-- The references of a name, to others than itself and inside the set, are among `before`.
abbrev pub IsReady : Pairs → List (List ℕ) → List ℕ → Type 0
IsReady es before n = All (λ e. ((n =? e.1) ≡ false) ⊎ (has e.0 before ≡ true)) es

unfoldable pub IsSorted : Pairs → List (List ℕ) → List (List ℕ) → Type 0
IsSorted es before [] = Unit
IsSorted es before (n ∷ ns) = IsReady es before n × IsSorted es (before ++ (n ∷ [])) ns

IsSorted-snoc :
    (es : Pairs) (before ns : List (List ℕ)) (n : List ℕ)
    → IsSorted es before ns
    → IsReady es (before ++ ns) n
    → IsSorted es before (ns ++ (n ∷ []))
unfolding IsSorted
IsSorted-snoc es before [] n h r = (rw (append-nil before) at r, tt)
IsSorted-snoc es before (m ∷ ns) n h r =
    (h.0, IsSorted-snoc es (before ++ (m ∷ [])) ns n h.1 (rw (append_assoc before (m ∷ []) ns) r))

-- The flags say what is in the output, and nothing is there twice.
pub record Tracks (s : Kahn) : Type 0 where
  pub same : (x : List ℕ) → s.emitted x ≡ has x s.out
  pub distinct : Nodup s.out

Tracks-append :
    (deg : List ℕ → ℕ) (s : Kahn) (n : List ℕ)
    → s.emitted n ≡ false
    → Tracks s
    → Tracks (record { in_deg = deg; emitted = mark n s.emitted; out = s.out ++ (n ∷ []) })
unfolding mark has
Tracks-append deg s n h t = record {
  same = λ x. ground (arith, t.same x, has-append x s.out (n ∷ []));
  distinct = Nodup-snoc n s.out t.distinct (ground (arith, h, t.same n));
}

pub record Inv (es : Pairs) (names : List (List ℕ)) (s : Kahn) : Type 0 where
  pub tracks : Tracks s
  pub counted : (d : List ℕ) → s.in_deg d ≡ pending s.emitted d es
  pub within : (x : List ℕ) → has x s.out ≡ true → has x names ≡ true
  pub sorted : IsSorted es [] s.out

pending_none :
    (emitted : List ℕ → Bool) (out : List (List ℕ)) (n : List ℕ) (es : Pairs)
    → ((x : List ℕ) → emitted x ≡ has x out)
    → pending emitted n es ≡ 0
    → IsReady es out n
unfolding pending
pending_none emitted out n [] same h = tt
pending_none emitted out n (e ∷ es) same h =
    (ground (arith, h, same e.0), pending_none emitted out n es same (ground (arith, h)))

pub none_pending :
    (emitted : List ℕ → Bool) (n : List ℕ) (es : Pairs)
    → All (λ e. ((n =? e.1) ≡ false) ⊎ (emitted e.0 ≡ true)) es
    → pending emitted n es ≡ 0
unfolding pending
none_pending emitted n [] h = refl
none_pending emitted n (e ∷ es) h = ground (arith, h.0, none_pending emitted n es h.1)

pub emit-Inv :
    (es : Pairs) (names : List (List ℕ)) (adj : List ℕ → List (List ℕ))
    → ((r : List ℕ) → adj r ≡ targets r es)
    → (n : List ℕ) (s : Kahn) → has n names ≡ true
    → IsFree s n
    → Inv es names s
    → Inv es names (emit adj n s)
unfolding emit has
emit-Inv es names adj h n s m free v = record {
  tracks = Tracks-append (release (adj n) s.in_deg) s n free.0 v.tracks;
  counted = λ d.
      release-times (adj n) s.in_deg d
      ∙ omega (arith, v.counted d, pending-mark s.emitted n d es free.0, ap (times d) (h n));
  within = λ x p. elim (Bool-cases (x =? n)) [
    | inl e ↦ rw (eq→≡ x n e) m
    | inr e ↦ v.within x (ground (arith, p, e, has-append x s.out (n ∷ [])))
  ];
  sorted =
      IsSorted-snoc es [] s.out n v.sorted
        (pending_none s.emitted s.out n es v.tracks.same (omega (arith, v.counted n, free.1)));
}

pub flush-Tracks :
    (ns : List (List ℕ)) (s : Kahn) (stuck : List (List ℕ)) → Tracks s → Tracks (flush ns s stuck).0
unfolding flush
flush-Tracks [] s stuck t = t
flush-Tracks (n ∷ ns) s stuck t = elim (Bool-cases (s.emitted n)) [
  | inl e ↦ rw (e, flush) (flush-Tracks ns s stuck t)
  | inr e ↦ rw (e, flush) (flush-Tracks ns _ _ (Tracks-append s.in_deg s n e t))
]

pub flush-emitted :
    (ns : List (List ℕ)) (s : Kahn) (stuck : List (List ℕ)) (x : List ℕ)
    → (flush ns s stuck).0.emitted x ≡ (s.emitted x || has x ns)
unfolding flush mark has
flush-emitted [] s stuck x = ground arith
flush-emitted (n ∷ ns) s stuck x = elim (Bool-cases (s.emitted n)) [
  | inl e ↦ elim (Bool-cases (x =? n)) [
    | inl d ↦
        rw (e, flush)
          (let same = ap s.emitted (eq→≡ x n d) in
            ground (arith, e, same, flush-emitted ns s stuck x))
    | inr d ↦ rw (e, flush) (ground (arith, d, flush-emitted ns s stuck x))
  ]
  | inr e ↦
      rw (e, flush) (ground (arith, flush-emitted ns (append_stuck n s) (stuck ++ (n ∷ [])) x))
]

pub flush-stuck :
    (ns : List (List ℕ)) (s : Kahn) (stuck : List (List ℕ)) (x : List ℕ)
    → has x (flush ns s stuck).1 ≡ (has x stuck || (has x ns && not (s.emitted x)))
unfolding flush mark has
flush-stuck [] s stuck x = ground arith
flush-stuck (n ∷ ns) s stuck x = elim (Bool-cases (s.emitted n)) [
  | inl e ↦ elim (Bool-cases (x =? n)) [
    | inl d ↦
        rw (e, flush)
          (let same = ap s.emitted (eq→≡ x n d) in
            ground (arith, e, same, flush-stuck ns s stuck x))
    | inr d ↦ rw (e, flush) (ground (arith, d, flush-stuck ns s stuck x))
  ]
  | inr e ↦ elim (Bool-cases (x =? n)) [
    | inl d ↦
        rw (e, flush)
          (let same = ap s.emitted (eq→≡ x n d) in
            ground (
              arith,
              e,
              d,
              same,
              has-append x stuck (n ∷ []),
              flush-stuck ns (append_stuck n s) (stuck ++ (n ∷ [])) x,
            ))
    | inr d ↦
        rw (e, flush)
          (ground (
            arith,
            d,
            has-append x stuck (n ∷ []),
            flush-stuck ns (append_stuck n s) (stuck ++ (n ∷ [])) x,
          ))
  ]
]

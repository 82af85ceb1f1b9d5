-- ===== src/Streams/Dispenser/Laws.antt =====
-- The bytes that a dispenser (streams/dispenser.go) passes on, and its limit.
use mathlib.Core.Path.{subst}
use astral_go.Base.{
  ℕ, ◌+◌, ◌%◌, ◌^◌, ◌<◌, ◌≤◌, min, ◌≡◌, refl, ap, sym, ◌∙◌, Bool, true, false, List, [], ◌∷◌,
  length, length-append, length-take, take, drop, ◌++◌, ◌-◌, zero, suc, ◌⊎◌, All, append-nil,
  append_assoc, if◌then◌else◌, length-drop, ◌==◌, arith, inl, inr, Bool-cases,
}
use astral_go.Streams.Async.{accepts}
use astral_go.Streams.Dispenser.{
  Dispenser, new_dispenser, increase, close, limited_round, write_round, Event, increases, closes,
  writes, rounds, write, returns, closed_pipe, waits, write_loop, is_negative, step, run,
}

-- The sum of the increases.
unfoldable pub allowance : {E : Type 0} → List (Event E) → ℕ
allowance [] = 0
allowance (increases i ∷ es) = i + allowance es
allowance (closes ∷ es) = allowance es
allowance (writes p n ∷ es) = allowance es
allowance (rounds p n ∷ es) = allowance es

-- The bytes passed on and the limit left.
abbrev pub total : Dispenser → ℕ
total d = length d.output + d.limit

module _ (E : Type 0) where
  limited_total :
      (n : ℕ) (p : List ℕ) (d : Dispenser)
      → total (limited_round {E = E} (accepts n) p d).0 ≡ total d
  unfolding limited_round
  limited_total n p d =
      let part = take (min (length p) d.limit) p in
      omega (
        arith,
        length-append d.output (take n part),
        length-take n part,
        length-take (min (length p) d.limit) p,
      )

  limited_unlimited :
      (n : ℕ) (p : List ℕ) (d : Dispenser)
      → (limited_round {E = E} (accepts n) p d).0.unlimited ≡ d.unlimited
  unfolding limited_round
  limited_unlimited n p d = refl

  round_total :
      (n : ℕ) (p : List ℕ) (closed : Bool) (d : Dispenser)
      → let v = record d { unlimited = false; closed = closed } in
        (total (write_round {E = E} (accepts n) p v).0 ≡ total v)
        × ((write_round {E = E} (accepts n) p v).0.unlimited ≡ false)
  unfolding write_round
  round_total n p true d = elim (Bool-cases (length p == 0)) [
    | inl e ↦ rw (e, write_round) (refl, refl)
    | inr e ↦ rw (e, write_round) (refl, refl)
  ]
  round_total n p false d = elim (Bool-cases (length p == 0)) [
    | inl e ↦ rw (e, write_round) (refl, refl)
    | inr e ↦ elim (Bool-cases (d.limit == 0)) [
      | inl z ↦ rw (e, z, write_round) (refl, refl)
      | inr z ↦ elim (Bool-cases (is_negative d.limit)) [
        | inl below ↦ rw (e, z, below, write_round) (refl, refl)
        | inr limited ↦
            let v : Dispenser = record d { unlimited = false; closed = false } in
            rw (e, z, limited, write_round) (limited_total n p v, limited_unlimited n p v)
      ]
    ]
  ]

  write-total :
      (n : ℕ) (p : List ℕ) (closed : Bool) (d : Dispenser)
      → let v = record d { unlimited = false; closed = closed } in
        (total (write {E = E} (accepts n) p v).0 ≡ total v)
        × ((write {E = E} (accepts n) p v).0.unlimited ≡ false)
  unfolding write
  write-total n p true d = (refl, refl)
  write-total n p false d = round_total n p false d

-- A dispenser that is not unlimited, and whose limit stays an int under the increases to come.
abbrev HasRoom : {E : Type 0} → Dispenser → List (Event E) → Type 0
HasRoom d es = (d.unlimited ≡ false) × (total d + allowance es < 2 ^ 63)

kept :
    {E : Type 0} (d d' : Dispenser) (es : List (Event E))
    → HasRoom d es
    → (total d' ≡ total d) × (d'.unlimited ≡ false)
    → HasRoom d' es
kept d d' es (h, small) (same, still) = (still, omega (arith, small, same))

taken_prefix : (n k : ℕ) (p : List ℕ) → take (length (take n (take k p))) p ≡ take n (take k p)
taken_prefix zero k p = refl
taken_prefix (suc n) zero p = refl
taken_prefix (suc n) (suc k) [] = refl
taken_prefix (suc n) (suc k) (b ∷ p) = ap (λ l. b ∷ l) (taken_prefix n k p)

take_nil : (j : ℕ) → take {A = ℕ} j [] ≡ []
take_nil zero = refl
take_nil (suc j) = refl

take-split : (m j : ℕ) (p : List ℕ) → take m p ++ take j (drop m p) ≡ take (m + j) p
take-split zero j p = ap (λ k. take k p) (omega arith)
take-split (suc m) j [] = let short : suc m + j ≡ suc (m + j) = omega arith in rw short (take_nil j)
take-split (suc m) j (b ∷ p) =
    let next : suc m + j ≡ suc (m + j) = omega arith in rw next (ap (λ l. b ∷ l) (take-split m j p))

-- The four ends of a round under a limit.
round-cases :
    (E : Type 0) (n : ℕ) (p : List ℕ) (closed : Bool) (d : Dispenser)
    → d.limit < 2 ^ 63
    → let v = record d { unlimited = false; closed = closed } in
      ((write_round {E = E} (accepts n) p v ≡ (v, returns)) × (length p ≡ 0))
      ⊎ ((write_round {E = E} (accepts n) p v ≡ (v, closed_pipe)) × (closed ≡ true))
      ⊎ ((write_round {E = E} (accepts n) p v ≡ (v, waits)) × (d.limit ≡ 0))
      ⊎ ((write_round {E = E} (accepts n) p v ≡ limited_round {E = E} (accepts n) p v)
          × (closed ≡ false)
          × (0 < length p)
          × (0 < d.limit))
unfolding write_round
round-cases E n p true d s = elim (Bool-cases (length p == 0)) [
  | inl e ↦ inl (rw (e, write_round) refl, ground (arith, e))
  | inr e ↦ inr (inl (rw (e, write_round) refl, refl))
]
round-cases E n p false d s = elim (Bool-cases (length p == 0)) [
  | inl e ↦ inl (rw (e, write_round) refl, ground (arith, e))
  | inr e ↦ elim (Bool-cases (d.limit == 0)) [
    | inl z ↦ inr (inr (inl (rw (e, z, write_round) refl, ground (arith, z))))
    | inr z ↦
        let limited : is_negative d.limit ≡ false = ground (arith, s) in
        inr (
          inr (
            inr (rw (e, z, limited, write_round) refl, refl, ground (arith, e), ground (arith, z))))
  ]
]

-- What Write still passes on of its bytes.
abbrev allowed : Bool → ℕ → List ℕ → List ℕ
allowed closed limit p = if closed then [] else take limit p

nothing_allowed :
    (closed : Bool) (limit : ℕ) (p : List ℕ) → length p ≡ 0 → allowed closed limit p ≡ []
nothing_allowed true limit p e = refl
nothing_allowed false limit [] e = take_nil limit
nothing_allowed false limit (b ∷ p) e = absurd (omega (arith, e))

no_limit : (closed : Bool) (p : List ℕ) → allowed closed 0 p ≡ []
no_limit true p = refl
no_limit false p = refl

module _ (E : Type 0) where
  loop_lem :
      (ns p : List ℕ) (closed : Bool) (d : Dispenser)
      → d.limit < 2 ^ 63
      → All (λ n. 1 ≤ n) ns
      → length p < length ns
      → let v = record d { unlimited = false; closed = closed } in
        (write_loop {E = E} ns p v).0.output ≡ d.output ++ allowed closed d.limit p
  unfolding write_loop limited_round
  loop_lem [] p closed d s a l = absurd (omega arith)
  loop_lem (n ∷ ns) p closed d s a l = elim (round-cases E n p closed d s) [
    | inl (e, none_left) ↦
        rw (e, nothing_allowed closed d.limit p none_left, write_loop, e)
          (sym (append-nil d.output))
    | inr (inl (e, c)) ↦ rw (e, write_loop, e) (rw c (sym (append-nil d.output)))
    | inr (inr (inl (e, z))) ↦
        rw (e, write_loop, e)
          (sym (append-nil d.output)
            ∙ ap (λ l. d.output ++ l) (sym (ap (λ k. allowed closed k p) z ∙ no_limit closed p)))
    | inr (inr (inr (e, c, some_left, room))) ↦
        let part = take (min (length p) d.limit) p in
        let moved = take n part in
        let d' : Dispenser = record d {
          output = d.output ++ moved;
          limit = d.limit - length moved;
        } in
        let size = length-take n part in
        let size_part = length-take (min (length p) d.limit) p in
        let ih =
          loop_lem ns (drop (length moved) p) closed d' (omega (arith, s)) a.1 (
            omega
              (arith, length-drop (length moved) p, size, size_part, a.0, some_left, room, l)) in
        let all : length moved + (d.limit - length moved) ≡ d.limit =
          omega (arith, size, size_part) in
        rw (e, write_loop, e)
          (ih
            ∙ append_assoc d.output moved (allowed closed d'.limit (drop (length moved) p))
            ∙ ap (λ l. d.output ++ l)
                (rw c (
                  ap (λ l. l ++ take d'.limit (drop (length moved) p))
                    (sym (taken_prefix n (min (length p) d.limit) p))
                  ∙ take-split (length moved) d'.limit p
                  ∙ ap (λ k. take k p) all)))
  ]

total-run :
    {E : Type 0} (es : List (Event E)) (d : Dispenser)
    → HasRoom d es
    → (total (run es d) ≡ total d + allowance es) × ((run es d).unlimited ≡ false)
unfolding run step allowance increase close
total-run [] d h = (omega arith, h.0)
total-run (increases i ∷ es) d (h, small) =
    let exact : (d.limit + i) % 2 ^ 64 ≡ d.limit + i = omega (arith, small) in
    let (sum, still) = total-run es (increase i d) (h, omega (arith, small, exact)) in
    (omega (arith, sum, exact), still)
total-run (closes ∷ es) d h = total-run es (close d) h
total-run {E = E} (writes p n ∷ es) d h =
    let same : record d { unlimited = false } ≡ d =
      ap (λ u. record d { unlimited = u }) (sym h.0) in
    let step_kept =
      subst
        (λ x.
          (total (write {E = E} (accepts n) p x).0 ≡ total x)
          × ((write {E = E} (accepts n) p x).0.unlimited ≡ false))
        same (write-total E n p d.closed d) in
    let after = (write {E = E} (accepts n) p d).0 in
    let (sum, still) = total-run es after (kept d after es h step_kept) in
    (omega (arith, sum, step_kept.0), still)
total-run {E = E} (rounds p n ∷ es) d h =
    let same : record d { unlimited = false } ≡ d =
      ap (λ u. record d { unlimited = u }) (sym h.0) in
    let step_kept =
      subst
        (λ x.
          (total (write_round {E = E} (accepts n) p x).0 ≡ total x)
          × ((write_round {E = E} (accepts n) p x).0.unlimited ≡ false))
        same (round_total E n p d.closed d) in
    let after = (write_round {E = E} (accepts n) p d).0 in
    let (sum, still) = total-run es after (kept d after es h step_kept) in
    (omega (arith, sum, step_kept.0), still)

-- For a dispenser that is never unlimited, over a writer that does not fail, with increases that
-- are not negative and whose sum is an int, whatever the closing, the calls of Write and the rounds
-- of its loop before: the bytes passed on and the limit left add up to the sum of the increases,
-- and no more bytes are passed on than that; and over a writer that takes a byte at least in each
-- of more rounds than there are bytes, the loop of Write then passes on, in order, as many of its
-- bytes as the limit allows, and none when the dispenser is closed.
pub run-allowance :
    {E : Type 0} (es : List (Event E)) (ns p : List ℕ)
    → allowance es < 2 ^ 63
    → All (λ n. 1 ≤ n) ns
    → length p < length ns
    → let d = run es new_dispenser in
      (length d.output + d.limit ≡ allowance es)
      × (length d.output ≤ allowance es)
      × ((write_loop {E = E} ns p d).0.output
          ≡ d.output ++ (if d.closed then [] else take d.limit p))
unfolding new_dispenser
run-allowance {E = E} es ns p small a l =
    let (sum, still) = total-run es new_dispenser (refl, omega (arith, small)) in
    let d = run es new_dispenser in
    let same : record d { unlimited = false } ≡ d =
      ap (λ u. record d { unlimited = u }) (sym still) in
    (
      omega (arith, sum),
      omega (arith, sum),
      subst (λ x. (write_loop {E = E} ns p x).0.output ≡ d.output ++ allowed d.closed d.limit p)
          same (loop_lem E ns p d.closed d (omega (arith, small, sum)) a l),
    )

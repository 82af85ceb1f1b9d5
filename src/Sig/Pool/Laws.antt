-- ===== src/Sig/Pool/Laws.antt =====
-- The locks and the capacities of a pool (sig/pool.go) after its operations.
use astral_go.Base.{
  ℕ, ◌+◌, ◌-◌, ◌≤◌, ◌<◌, ◌≡◌, refl, ap, sym, ◌∙◌, true, false, List, [], ◌∷◌, ◌++◌, if◌then◌else◌,
  leb, leb→le, ◌==◌, str_eq, str_eq_refl, str_eq_iff, arith, Bool-cases, ◌⊎◌, inl, inr,
}
use astral_go.Sig.Times.{times, times-append}
use astral_go.Sig.Pool.{Pool, assign, add, lock_one, unlock_one, unlock, lock_round, try_lock}

-- No item is locked more often than the pool has it.
abbrev pub IsSafe : Pool → Type 0
IsSafe p = (x : List ℕ) → p.locked x ≤ p.cap x

same_name : (x n : List ℕ) → str_eq x n ≡ true → x ≡ n
same_name x n h = (str_eq_iff x n).0 h

unlock_one-locked :
    (n x : List ℕ) (p : Pool)
    → (unlock_one n p).0.locked x ≡ p.locked x - (if str_eq x n then 1 else 0)
unfolding unlock_one assign
unlock_one-locked n x p = elim (Bool-cases (p.locked n == 0)) [
  | inl e ↦ elim (Bool-cases (str_eq x n)) [
    | inl d ↦
        let none_locked : p.locked x ≡ p.locked n = ap p.locked (same_name x n d) in
        rw (e, d) (ground (arith, none_locked))
    | inr d ↦ rw (e, d) (omega arith)
  ]
  | inr e ↦ elim (Bool-cases (str_eq x n)) [
    | inl d ↦ rw (e, d) (omega (arith, ap p.locked (same_name x n d)))
    | inr d ↦ rw (e, d) (omega arith)
  ]
]

unlock_one-cap : (n x : List ℕ) (p : Pool) → (unlock_one n p).0.cap x ≡ p.cap x
unfolding unlock_one
unlock_one-cap n x p = elim (Bool-cases (p.locked n == 0)) [ inl e ↦ rw e refl | inr e ↦ rw e refl ]

-- Unlock takes away one lock for each time a name is given, down to none, and leaves the capacities.
pub unlock-locked :
    (names : List (List ℕ)) (p : Pool) (x : List ℕ)
    → ((unlock names p).locked x ≡ p.locked x - times x names) × ((unlock names p).cap x ≡ p.cap x)
unfolding unlock times
unlock-locked [] p x = (omega arith, refl)
unlock-locked (n ∷ names) p x =
    let (locked, cap) = unlock-locked names (unlock_one n p).0 x in
    (locked ∙ ground (arith, unlock_one-locked n x p), cap ∙ unlock_one-cap n x p)

unfoldable taken : List ℕ → Pool → Pool
taken n p = record p { locked = assign p.locked n (p.locked n + 1) }

lock_one-cases :
    (n : List ℕ) (p : Pool)
    → ((lock_one n p ≡ (p, false)) × (p.cap n ≤ p.locked n))
      ⊎ ((lock_one n p ≡ (taken n p, true)) × (p.locked n < p.cap n))
unfolding lock_one taken
lock_one-cases n p = elim (Bool-cases (leb (p.cap n) (p.locked n))) [
  | inl e ↦ inl (rw e refl, leb→le (p.cap n) (p.locked n) e)
  | inr e ↦ inr (rw e refl, ground arith)
]

taken-locked :
    (n x : List ℕ) (p : Pool) → (taken n p).locked x ≡ p.locked x + (if str_eq x n then 1 else 0)
unfolding taken assign
taken-locked n x p = elim (Bool-cases (str_eq x n)) [
  | inl e ↦ rw e (ap (λ y. p.locked y + 1) (sym (same_name x n e)))
  | inr e ↦ rw e (omega arith)
]

taken-IsSafe : (n : List ℕ) (p : Pool) → IsSafe p → p.locked n < p.cap n → IsSafe (taken n p)
unfolding taken assign
taken-IsSafe n p safe room x = elim (Bool-cases (str_eq x n)) [
  | inl e ↦ rw e (omega (arith, room, ap p.cap (same_name x n e)))
  | inr e ↦ rw e (safe x)
]

-- What a round of Lock does to the locks: with `held` counted in already, it adds the names, or it
-- takes `held` away again.
lock_round_lem :
    (names held : List (List ℕ)) (p : Pool) (x : List ℕ)
    → ((lock_round names held p).0.cap x ≡ p.cap x)
      × ((lock_round names held p).0.locked x ≡ (
          if (lock_round names held p).1
          then p.locked x + times x names
          else p.locked x - times x held))
unfolding lock_round times taken
lock_round_lem [] held p x = (refl, omega arith)
lock_round_lem (n ∷ names) held p x = elim (lock_one-cases n p) [
  | inl (e, full) ↦
      let (locked, cap) = unlock-locked held p x in rw (e, lock_round, e) (cap, locked)
  | inr (e, room) ↦
      let (cap, locked) = lock_round_lem names (held ++ (n ∷ [])) (taken n p) x in
      rw (e, lock_round, e)
        (cap, locked ∙ ground (arith, taken-locked n x p, times-append x held (n ∷ [])))
]

-- A round of Lock takes all of its names, each as often as it is given, or leaves every lock as it
-- was; it never changes a capacity.
pub try_lock_atomic :
    (names : List (List ℕ)) (p : Pool) (x : List ℕ)
    → ((try_lock names p).0.cap x ≡ p.cap x)
      × ((try_lock names p).0.locked x
          ≡ (if (try_lock names p).1 then p.locked x + times x names else p.locked x))
unfolding try_lock times
try_lock_atomic names p x =
    let (cap, locked) = lock_round_lem names [] p x in (cap, ground (arith, locked))

lock_round-IsSafe :
    (names held : List (List ℕ)) (p : Pool) → IsSafe p → IsSafe (lock_round names held p).0
unfolding lock_round taken
lock_round-IsSafe [] held p safe = safe
lock_round-IsSafe (n ∷ names) held p safe = elim (lock_one-cases n p) [
  | inl (e, full) ↦
      rw (e, lock_round, e)
        (λ x. let (locked, cap) = unlock-locked held p x in omega (arith, locked, cap, safe x))
  | inr (e, room) ↦
      rw (e, lock_round, e)
        (lock_round-IsSafe names (held ++ (n ∷ [])) (taken n p) (taken-IsSafe n p safe room))
]

-- A round of Lock on a pool that has no item locked beyond its capacity leaves such a pool.
pub try_lock-IsSafe : (names : List (List ℕ)) (p : Pool) → IsSafe p → IsSafe (try_lock names p).0
unfolding try_lock
try_lock-IsSafe names p safe = lock_round-IsSafe names [] p safe

pub unlock-IsSafe : (names : List (List ℕ)) (p : Pool) → IsSafe p → IsSafe (unlock names p)
unlock-IsSafe names p safe x =
    let (locked, cap) = unlock-locked names p x in omega (arith, locked, cap, safe x)

pub add-IsSafe : (item : List ℕ) (n : ℕ) (p : Pool) → IsSafe p → IsSafe (add item n p).0
unfolding add assign
add-IsSafe item n p safe x = elim (Bool-cases (str_eq x item)) [
  | inl e ↦ rw e (omega (arith, safe item, ap p.locked (same_name x item e)))
  | inr e ↦ rw e (safe x)
]

lock_round-true :
    (names held : List (List ℕ)) (p : Pool)
    → ((x : List ℕ) → p.locked x + times x names ≤ p.cap x)
    → (lock_round names held p).1 ≡ true
unfolding lock_round times taken
lock_round-true [] held p room = refl
lock_round-true (n ∷ names) held p room = elim (lock_one-cases n p) [
  | inl (e, full) ↦ absurd (ground (arith, room n, str_eq_refl n))
  | inr (e, free) ↦
      rw (e, lock_round, e)
        (lock_round-true names (held ++ (n ∷ [])) (taken n p)
          (λ x. ground (arith, room x, taken-locked n x p)))
]

-- A round of Lock succeeds where there is room for all of its names.
pub try_lock_succeeds :
    (names : List (List ℕ)) (p : Pool)
    → ((x : List ℕ) → p.locked x + times x names ≤ p.cap x)
    → (try_lock names p).1 ≡ true
unfolding try_lock
try_lock_succeeds names p room = lock_round-true names [] p room

-- Unlock after a successful round of Lock with the same names leaves the locks as before it.
pub unlock-try_lock :
    (names : List (List ℕ)) (p : Pool) (x : List ℕ)
    → (try_lock names p).1 ≡ true
    → (unlock names (try_lock names p).0).locked x ≡ p.locked x
unlock-try_lock names p x success =
    let (cap, locked) = try_lock_atomic names p x in
    let (after, cap_after) = unlock-locked names (try_lock names p).0 x in
    ground (arith, after, locked, success)

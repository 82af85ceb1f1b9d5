-- ===== src/Sig/Queue/Items.antt =====
-- The items of a queue of sig/queue.go, and what a round of a subscriber finds.
use astral_go.Base.{
  ◌≢◌, ℕ, zero, suc, ◌≡◌, refl, ap, Bool, true, false, none, some, List, [], ◌∷◌, ◌++◌, length,
  take, ◌<◌, arith, Option-cases, inl, inr, ◌≤◌,
}
use astral_go.Sig.Queue.{
  nil_channel, open_channel, closed_channel, Queue, last, link, push, close, wait, Round, Action,
  pushes, closes, cancels, takes, leaves, waits, ends, sends, round,
}

pub nothing : {A : Type 0} {a : A} → none ≢ some a
nothing e = cc

pub opposite : true ≢ false
opposite e = cc

module _ {T : Type 0} where
  -- The items of a queue, and whether it is closed.
  unfoldable pub items : Queue T → List T
  items (last w) = []
  items (link d q) = d ∷ items q

  unfoldable pub is_closed : Queue T → Bool
  is_closed (last closed_channel) = true
  is_closed (last w) = false
  is_closed (link d q) = is_closed q

  -- The items that a list of actions pushes.
  unfoldable pub pushed : List (Action T) → List T
  pushed [] = []
  pushed (pushes x ∷ acts) = x ∷ pushed acts
  pushed (closes ∷ acts) = pushed acts
  pushed (cancels ∷ acts) = pushed acts
  pushed (takes ∷ acts) = pushed acts
  pushed (leaves ∷ acts) = pushed acts

  pub items-push :
      (x : T) (q q' : Queue T)
      → push x q ≡ some q'
      → (items q' ≡ items q ++ (x ∷ [])) × (is_closed q ≡ false)
  unfolding push items is_closed
  items-push x (last nil_channel) q' e = ground (arith, e)
  items-push x (last open_channel) q' e = ground (arith, e)
  items-push x (last closed_channel) q' e = cc
  items-push x (link d q) q' e = elim (Option-cases (push x q)) [
    | inl c ↦ absurd (ground (arith, c, e))
    | inr (r, c) ↦ ground (arith, c, e, items-push x q r c)
  ]

  pub items-close :
      (q q' : Queue T) → close q ≡ some q' → (items q' ≡ items q) × (is_closed q ≡ false)
  unfolding close items is_closed
  items-close (last nil_channel) q' e = ground (arith, e)
  items-close (last open_channel) q' e = ground (arith, e)
  items-close (last closed_channel) q' e = cc
  items-close (link d q) q' e = elim (Option-cases (close q)) [
    | inl c ↦ absurd (ground (arith, c, e))
    | inr (r, c) ↦ ground (arith, c, e, items-close q r c)
  ]

  -- What a round at the element `n` has found.
  unfoldable pub Found : ℕ → Queue T → Round T → Type 0
  Found n q waits = Unit
  Found n q ends = (n ≡ length (items q)) × (is_closed q ≡ true)
  Found n q (sends x) =
      (suc n ≤ length (items q)) × (take (suc n) (items q) ≡ take n (items q) ++ (x ∷ []))

  pub Found-link :
      (d : T) (n : ℕ) (q : Queue T) (r : Round T) → Found n q r → Found (suc n) (link d q) r
  unfolding Found items is_closed
  Found-link d n q waits h = tt
  Found-link d n q ends h = (omega arith, h.1)
  Found-link d n q (sends x) h = (omega arith, ap (λ l. d ∷ l) h.1)

  pub round_lem :
      (n : ℕ) (q : Queue T)
      → n ≤ length (items q)
      → (items (round n q).0 ≡ items q)
        × (is_closed (round n q).0 ≡ is_closed q)
        × Found n q (round n q).1
  unfolding round wait items is_closed Found
  round_lem zero (link d q) h = (refl, refl, (omega arith, refl))
  round_lem zero (last nil_channel) h = (refl, refl, tt)
  round_lem zero (last open_channel) h = (refl, refl, tt)
  round_lem zero (last closed_channel) h = (refl, refl, (refl, refl))
  round_lem (suc n) (last w) h = absurd (omega arith)
  round_lem (suc n) (link d q) h =
      let (i, c, f) = round_lem n q (omega arith) in
      (ap (λ l. d ∷ l) i, c, Found-link d n q (round n q).1 f)

  pub take-append_short : (n : ℕ) (xs ys : List T) → n ≤ length xs → take n (xs ++ ys) ≡ take n xs
  take-append_short zero xs ys h = refl
  take-append_short (suc n) [] ys h = absurd (omega arith)
  take-append_short (suc n) (x ∷ xs) ys h =
      ap (λ l. x ∷ l) (take-append_short n xs ys (omega arith))

  pub take_all : (n : ℕ) (xs : List T) → n ≡ length xs → take n xs ≡ xs
  take_all zero [] h = refl
  take_all zero (x ∷ xs) h = absurd (omega arith)
  take_all (suc n) [] h = refl
  take_all (suc n) (x ∷ xs) h = ap (λ l. x ∷ l) (take_all n xs (omega arith))

  pub round_sends :
      (n : ℕ) (q : Queue T) → n < length (items q) → (x : T) × (round n q ≡ (q, sends x))
  unfolding round items
  round_sends n (last w) h = absurd (omega arith)
  round_sends zero (link d q) h = (d, refl)
  round_sends (suc n) (link d q) h = let (x, e) = round_sends n q (omega arith) in (x, rw e refl)

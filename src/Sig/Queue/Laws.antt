-- ===== src/Sig/Queue/Laws.antt =====
-- What a subscriber of a queue of sig/queue.go receives.
use astral_go.Base.{
  same_value, length-append, ℕ, zero, suc, ◌+◌, ◌≡◌, refl, ap, sym, ◌∙◌, Bool, true, false, some,
  List, [], ◌∷◌, ◌++◌, append_assoc, append-nil, length, take, replicate, ◌-◌, arith, Option-cases,
  inl, inr, ◌≤◌,
}
use mathlib.Core.Path.{subst}
use astral_go.Sig.Queue.{
  nil_channel, Queue, last, push, close, Round, Loop, looping, returned_at_end, returned_at_done,
  Subscription, Action, pushes, closes, cancels, takes, leaves, waits, ends, sends, round,
  take_item, leave, step, run, subscribe,
}
use astral_go.Sig.Queue.Items.{
  nothing, opposite, items, is_closed, pushed, items-push, items-close, Found, round_lem,
  take-append_short, take_all, round_sends,
}

module _ {T : Type 0} where
  -- What holds where the goroutine is.
  AtLoop : Loop → Bool → List T → Queue T → Type 0
  AtLoop looping cancelled received q = Unit
  AtLoop returned_at_end cancelled received q = (received ≡ items q) × (is_closed q ≡ true)
  AtLoop returned_at_done cancelled received q = cancelled ≡ true

  -- The subscriber has received the items before its element, and its goroutine ends at the end of
  -- the queue or by its context.
  IsFollowing : Subscription T → Type 0
  IsFollowing s =
      (s.position ≤ length (items s.queue))
      × (s.received ≡ take s.position (items s.queue))
      × AtLoop s.loop s.cancelled s.received s.queue

  AtLoop-open :
      (l : Loop) (b : Bool) (r : List T) (q q' : Queue T)
      → is_closed q ≡ false
      → AtLoop l b r q
      → AtLoop l b r q'
  unfolding AtLoop
  AtLoop-open looping b r q q' c h = tt
  AtLoop-open returned_at_end b r q q' c h = absurd (opposite (sym h.1 ∙ c))
  AtLoop-open returned_at_done b r q q' c h = h

  push-IsFollowing :
      (x : T) (s : Subscription T) (q' : Queue T)
      → IsFollowing s
      → push x s.queue ≡ some q'
      → IsFollowing (record s { queue = q' })
  unfolding IsFollowing
  push-IsFollowing x s q' (low, same, at) h =
      let (i, unclosed) = items-push x s.queue q' h in
      (
        rw i (omega (arith, length-append (items s.queue) (x ∷ []))),
        rw i (same ∙ sym (take-append_short s.position (items s.queue) (x ∷ []) low)),
        AtLoop-open s.loop s.cancelled s.received s.queue q' unclosed at,
      )

  close-IsFollowing :
      (s : Subscription T) (q' : Queue T)
      → IsFollowing s
      → close s.queue ≡ some q'
      → IsFollowing (record s { queue = q' })
  unfolding IsFollowing
  close-IsFollowing s q' (low, same, at) h =
      let (i, unclosed) = items-close s.queue q' h in
      (rw i low, rw i same, AtLoop-open s.loop s.cancelled s.received s.queue q' unclosed at)

  AtLoop-cancelled :
      (l : Loop) (b : Bool) (r : List T) (q : Queue T) → AtLoop l b r q → AtLoop l true r q
  unfolding AtLoop
  AtLoop-cancelled looping b r q h = tt
  AtLoop-cancelled returned_at_end b r q h = h
  AtLoop-cancelled returned_at_done b r q h = refl

  cancel-IsFollowing :
      (s : Subscription T) → IsFollowing s → IsFollowing (record s { cancelled = true })
  unfolding IsFollowing
  cancel-IsFollowing s (low, same, at) =
      (low, same, AtLoop-cancelled s.loop s.cancelled s.received s.queue at)

  -- A subscriber that is in its loop.
  abbrev in_loop : Queue T → ℕ → List T → Bool → Subscription T
  in_loop q p r b = record { queue = q; position = p; received = r; cancelled = b; loop = looping }

  take-IsFollowing :
      (q : Queue T) (p : ℕ) (r : List T) (b : Bool) (q' : Queue T) (o : Round T)
      → IsFollowing (in_loop q p r b)
      → items q' ≡ items q
      → is_closed q' ≡ is_closed q
      → Found p q o
      → IsFollowing (take_item (in_loop q p r b) (q', o))
  unfolding IsFollowing Found AtLoop
  take-IsFollowing q p r b q' waits (low, same, at) i c f = (rw i low, rw i same, tt)
  take-IsFollowing q p r b q' ends (low, same, at) i c f =
      (rw i low, rw i same, (rw i (same ∙ take_all p (items q) f.0), c ∙ f.1))
  take-IsFollowing q p r b q' (sends x) (low, same, at) i c f =
      let next_index : p + 1 ≡ suc p = omega arith in
      (
        rw i (omega (arith, f.0)),
        ap (λ l. l ++ (x ∷ [])) same ∙ sym f.1 ∙ rw next_index (ap (take (suc p)) (sym i)),
        tt,
      )

  leave-IsFollowing :
      (q : Queue T) (p : ℕ) (r : List T) (b : Bool) (q' : Queue T) (o : Round T)
      → IsFollowing (in_loop q p r b)
      → items q' ≡ items q
      → IsFollowing (leave (in_loop q p r b) (q', o))
        × (items (leave (in_loop q p r b) (q', o)).queue ≡ items q)
  unfolding IsFollowing AtLoop leave
  leave-IsFollowing q p r true q' o (low, same, at) i = ((rw i low, rw i same, refl), i)
  leave-IsFollowing q p r false q' o (low, same, at) i = ((rw i low, rw i same, tt), i)

  within : (s : Subscription T) → IsFollowing s → s.position ≤ length (items s.queue)
  unfolding IsFollowing
  within s h = h.0

  take_item_items :
      (s : Subscription T) (q' : Queue T) (o : Round T)
      → items (take_item s (q', o)).queue ≡ items q'
  take_item_items s q' waits = refl
  take_item_items s q' ends = refl
  take_item_items s q' (sends x) = refl

  -- The invariant, and what an action has added to the queue.
  IsAfter : Subscription T → Action T → Subscription T → Type 0
  IsAfter s a s' = IsFollowing s' × (items s'.queue ≡ items s.queue ++ pushed (a ∷ []))

  takes-IsAfter :
      (q : Queue T) (p : ℕ) (r : List T) (b : Bool) (l : Loop) (s' : Subscription T)
      → let s = record (in_loop q p r b) { loop = l } in
        IsFollowing s → step takes s ≡ some s' → IsAfter s takes s'
  unfolding step IsAfter pushed
  takes-IsAfter q p r b returned_at_end s' h e =
      subst (λ u. IsAfter (record (in_loop q p r b) { loop = returned_at_end }) takes u)
        (same_value e) (h, sym (append-nil (items q)))
  takes-IsAfter q p r b returned_at_done s' h e =
      subst (λ u. IsAfter (record (in_loop q p r b) { loop = returned_at_done }) takes u)
        (same_value e) (h, sym (append-nil (items q)))
  takes-IsAfter q p r b looping s' h e =
      let (i, c, f) = round_lem p q (within (in_loop q p r b) h) in
      subst (λ u. IsAfter (in_loop q p r b) takes u) (same_value e)
        (
          take-IsFollowing q p r b (round p q).0 (round p q).1 h i c f,
          take_item_items (in_loop q p r b) (round p q).0 (round p q).1
              ∙ i
              ∙ sym (append-nil (items q)),
        )

  leaves-IsAfter :
      (q : Queue T) (p : ℕ) (r : List T) (b : Bool) (l : Loop) (s' : Subscription T)
      → let s = record (in_loop q p r b) { loop = l } in
        IsFollowing s → step leaves s ≡ some s' → IsAfter s leaves s'
  unfolding step IsAfter pushed
  leaves-IsAfter q p r b returned_at_end s' h e =
      subst (λ u. IsAfter (record (in_loop q p r b) { loop = returned_at_end }) leaves u)
        (same_value e) (h, sym (append-nil (items q)))
  leaves-IsAfter q p r b returned_at_done s' h e =
      subst (λ u. IsAfter (record (in_loop q p r b) { loop = returned_at_done }) leaves u)
        (same_value e) (h, sym (append-nil (items q)))
  leaves-IsAfter q p r b looping s' h e =
      let (i, c, f) = round_lem p q (within (in_loop q p r b) h) in
      let (follows, kept) = leave-IsFollowing q p r b (round p q).0 (round p q).1 h i in
      subst (λ u. IsAfter (in_loop q p r b) leaves u) (same_value e)
        (follows, kept ∙ sym (append-nil (items q)))

  pushed_cons :
      (a : Action T) (acts : List (Action T)) → pushed (a ∷ []) ++ pushed acts ≡ pushed (a ∷ acts)
  unfolding pushed
  pushed_cons (pushes x) acts = refl
  pushed_cons closes acts = refl
  pushed_cons cancels acts = refl
  pushed_cons takes acts = refl
  pushed_cons leaves acts = refl

  step-IsAfter :
      (a : Action T) (s s' : Subscription T) → IsFollowing s → step a s ≡ some s' → IsAfter s a s'
  unfolding step IsAfter pushed
  step-IsAfter (pushes x) s s' h e = elim (Option-cases (push x s.queue)) [
    | inl c ↦ absurd (nothing (rw c at e))
    | inr (q, c) ↦
        subst (λ t. IsAfter s (pushes x) t) (same_value (rw c at e))
          (push-IsFollowing x s q h c, (items-push x s.queue q c).0)
  ]
  step-IsAfter closes s s' h e = elim (Option-cases (close s.queue)) [
    | inl c ↦ absurd (nothing (rw c at e))
    | inr (q, c) ↦
        subst (λ t. IsAfter s closes t) (same_value (rw c at e))
          (
            close-IsFollowing s q h c,
            (items-close s.queue q c).0 ∙ sym (append-nil (items s.queue)),
          )
  ]
  step-IsAfter cancels s s' h e =
      subst (λ t. IsAfter s cancels t) (same_value e)
        (cancel-IsFollowing s h, sym (append-nil (items s.queue)))
  step-IsAfter takes s s' h e =
      takes-IsAfter s.queue s.position s.received s.cancelled s.loop s' h e
  step-IsAfter leaves s s' h e =
      leaves-IsAfter s.queue s.position s.received s.cancelled s.loop s' h e

  run-IsFollowing :
      (acts : List (Action T)) (s s' : Subscription T)
      → IsFollowing s
      → run acts s ≡ some s'
      → IsFollowing s' × (items s'.queue ≡ items s.queue ++ pushed acts)
  unfolding run pushed IsAfter
  run-IsFollowing [] s s' h e =
      subst (λ t. IsFollowing t × (items t.queue ≡ items s.queue ++ [])) (same_value e)
        (h, sym (append-nil (items s.queue)))
  run-IsFollowing (a ∷ acts) s s' h e = elim (Option-cases (step a s)) [
    | inl c ↦ absurd (nothing (rw (c, run) at e))
    | inr (t, c) ↦
        let (follows, more) = step-IsAfter a s t h c in
        let (follows', others) = run-IsFollowing acts t s' follows (rw (c, run) at e) in
        (
          follows',
          others
              ∙ ap (λ l. l ++ pushed acts) more
              ∙ append_assoc (items s.queue) (pushed (a ∷ [])) (pushed acts)
              ∙ ap (λ l. items s.queue ++ l) (pushed_cons a acts),
        )
  ]

  takes_one :
      (n : ℕ) (q : Queue T) (r : List T) (b : Bool) (x : T)
      → round n q ≡ (q, sends x)
      → step takes (in_loop q n r b) ≡ some (in_loop q (n + 1) (r ++ (x ∷ [])) b)
  unfolding step
  takes_one n q r b x e = ap (λ o. some (take_item (in_loop q n r b) o)) e

  run_cons :
      (a : Action T) (acts : List (Action T)) (s t u : Subscription T)
      → step a s ≡ some t
      → run acts t ≡ some u
      → run (a ∷ acts) s ≡ some u
  unfolding run
  run_cons a acts s t u e h = rw (e, run) h

  -- Enough rounds bring a subscriber in its loop to the last element.
  rounds_reach :
      (k : ℕ) (q : Queue T) (p : ℕ) (r : List T) (b : Bool)
      → p + k ≡ length (items q)
      → (s : Subscription T) × (run (replicate k takes) (in_loop q p r b) ≡ some s)
        × (s.queue ≡ q)
        × (s.position ≡ length (items q))
  unfolding run
  rounds_reach zero q p r b h = (in_loop q p r b, refl, refl, omega (arith, h))
  rounds_reach (suc k) q p r b h =
      let (x, e) = round_sends p q (omega (arith, h)) in
      let (s, runs, same, at) = rounds_reach k q (p + 1) (r ++ (x ∷ [])) b (omega (arith, h)) in
      (
        s,
        run_cons takes (replicate k takes) (in_loop q p r b) _ _ (takes_one p q r b x e) runs,
        same,
        at,
      )

  all_received :
      (s : Subscription T)
      → IsFollowing s
      → s.loop ≡ looping
      → (s' : Subscription T) × (run (replicate (length (items s.queue) - s.position) takes) s
          ≡ some s')
        × (s'.received ≡ items s.queue)
  unfolding IsFollowing
  all_received s (low, same, at) l =
      let k = length (items s.queue) - s.position in
      let (s', runs, kept, reached) =
        rounds_reach k s.queue s.position s.received s.cancelled (omega (arith, low)) in
      let in_it : in_loop s.queue s.position s.received s.cancelled ≡ s =
        ap (λ u. record s { loop = u }) (sym l) in
      let runs_s = subst (λ u. run (replicate k takes) u ≡ some s') in_it runs in
      let ((low', same', at'), more) =
        run-IsFollowing (replicate k takes) s s' (low, same, at) runs_s in
      (s', runs_s, same' ∙ take_all s'.position (items s'.queue) (rw kept reached) ∙ ap items kept)

  -- Whatever is pushed to a queue that has no items yet, and whatever the rounds of a subscriber
  -- and the cancelling of its context between, as long as no channel is closed twice: the
  -- subscriber has received the items pushed, in order, up to where it is; when its goroutine has
  -- returned at the end of the queue these are all of them, and the queue is closed; when it has
  -- returned at ctx.Done, the context is cancelled; and while it is in its loop, as many rounds as
  -- there are items left give it all of them.
  pub run-received :
      (acts : List (Action T)) (s : Subscription T)
      → run acts (subscribe (last nil_channel)) ≡ some s
      → (s.received ≡ take s.position (pushed acts))
        × (s.loop ≡ returned_at_end → (s.received ≡ pushed acts) × (is_closed s.queue ≡ true))
        × (s.loop ≡ returned_at_done → s.cancelled ≡ true)
        × (s.loop ≡ looping
            → (s' : Subscription T) × (run (replicate (length (pushed acts) - s.position) takes) s
                ≡ some s')
              × (s'.received ≡ pushed acts))
  unfolding IsFollowing AtLoop subscribe items
  run-received acts s e =
      let (follows, all) =
        run-IsFollowing acts (subscribe (last nil_channel)) s (omega arith, refl, tt) e in
      let (low, same, at) = follows in
      (
        same ∙ ap (take s.position) all,
        λ t.
            let (complete, closed) = subst (λ l. AtLoop l s.cancelled s.received s.queue) t at in
            (complete ∙ all, closed),
        λ t. subst (λ l. AtLoop l s.cancelled s.received s.queue) t at,
        λ t. rw⁻¹ all (all_received s follows t),
      )

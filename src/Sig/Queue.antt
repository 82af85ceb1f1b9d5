-- ===== src/Sig/Queue.antt =====
-- sig/queue.go: the linked queue with a channel in each element that is closed when the element is
-- ready, and the loop of Subscribe.
pub mod Items
pub mod Laws
use astral_go.Base.{
  ℕ, zero, suc, ◌+◌, Bool, true, false, Option, none, some, List, [], ◌∷◌, ◌++◌, if◌then◌else◌,
}

-- The channel `wait` of an element: nil, open or closed.
pub data WaitState : Type 0 where
  nil_channel open_channel closed_channel : WaitState

-- A queue from one of its elements on. An element with a `next` has its data, and its channel is
-- closed; the last one has neither.
pub data Queue (T : Type 0) : Type 0 where
  last : WaitState → Queue T
  link : T → Queue T → Queue T

module _ {T : Type 0} where
  abbrev pub relink : T → Option (Queue T) → Option (Queue T)
  relink d none = none
  relink d (some q) = some (link d q)

  -- Push and Close go on to the last element and close its channel. `none` is the panic of closing a
  -- channel that is closed.
  unfoldable pub push : T → Queue T → Option (Queue T)
  push x (link d q) = relink d (push x q)
  push x (last closed_channel) = none
  push x (last w) = some (link x (last nil_channel))

  unfoldable pub close : Queue T → Option (Queue T)
  close (link d q) = relink d (close q)
  close (last closed_channel) = none
  close (last w) = some (last closed_channel)

  unfoldable pub next : Queue T → Option (Queue T)
  next (link d q) = some q
  next (last w) = none

  -- Wait makes the channel where there is none; the Boolean tells whether it is closed.
  unfoldable pub wait : Queue T → Queue T × Bool
  wait (link d q) = (link d q, true)
  wait (last nil_channel) = (last open_channel, false)
  wait (last open_channel) = (last open_channel, false)
  wait (last closed_channel) = (last closed_channel, true)

-- The goroutine of Subscribe: in its loop, or behind one of the returns.
pub data Loop : Type 0 where
  looping returned_at_end returned_at_done : Loop

-- A queue with a subscriber: the element that the subscriber is at, by its distance from the first,
-- what has been sent to its channel, whether its context is cancelled, and its goroutine.
pub record Subscription (T : Type 0) : Type 0 where
  pub queue : Queue T
  pub position : ℕ
  pub received : List T
  pub cancelled : Bool
  pub loop : Loop

-- The calls on the queue, the cancelling of the context, and the choices of the two selects: `takes`
-- is a round in which they choose the element and its item, `leaves` one in which one of them
-- chooses ctx.Done.
pub data Action (T : Type 0) : Type 0 where
  pushes : T → Action T
  closes cancels takes leaves : Action T

-- What a round of the loop at an element finds: it waits, it ends, or it has an item to send.
pub data Round (T : Type 0) : Type 0 where
  waits ends : Round T
  sends : T → Round T

module _ {T : Type 0} where
  -- The loop at the element that is `n` behind the first, with the queue after Wait.
  unfoldable pub round : ℕ → Queue T → Queue T × Round T
  unfolding wait
  round zero (link d q) = (link d q, sends d)
  round zero (last closed_channel) = (last closed_channel, ends)
  round zero (last w) = ((wait (last w)).0, waits)
  round (suc n) (link d q) = let rest = round n q in (link d rest.0, rest.1)
  round (suc n) (last w) = (last w, waits)

  abbrev pub take_item : Subscription T → Queue T × Round T → Subscription T
  take_item s (q, waits) = record s { queue = q }
  take_item s (q, ends) = record s { queue = q; loop = returned_at_end }
  take_item s (q, sends x) = record s {
    queue = q;
    position = s.position + 1;
    received = s.received ++ (x ∷ []);
  }

  -- ctx.Done is ready when the context is cancelled. Wait has been called for the select.
  unfoldable pub leave : Subscription T → Queue T × Round T → Subscription T
  leave s (q, r) =
      if s.cancelled
      then record s { queue = q; loop = returned_at_done }
      else record s { queue = q }

  abbrev pub with_queue : Subscription T → Option (Queue T) → Option (Subscription T)
  with_queue s none = none
  with_queue s (some q) = some (record s { queue = q })

  unfoldable pub step : Action T → Subscription T → Option (Subscription T)
  unfolding push close round leave
  step (pushes x) s = with_queue s (push x s.queue)
  step closes s = with_queue s (close s.queue)
  step cancels s = some (record s { cancelled = true })
  step takes s = elim s.loop [
    | looping ↦ some (take_item s (round s.position s.queue))
    | _ ↦ some s
  ]
  step leaves s = elim s.loop [ looping ↦ some (leave s (round s.position s.queue)) | _ ↦ some s ]

  unfoldable pub run : List (Action T) → Subscription T → Option (Subscription T)
  unfolding step
  run [] s = some s
  run (a ∷ acts) s = elim (step a s) [ none ↦ none | some s' ↦ run acts s' ]

  unfoldable pub subscribe : Queue T → Subscription T
  subscribe q = record { queue = q; position = 0; received = []; cancelled = false; loop = looping }

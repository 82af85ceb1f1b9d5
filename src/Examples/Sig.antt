-- ===== src/Examples/Sig.antt =====
-- The containers of the package sig on small inputs.
use astral_go.Base.{
  true, false, replicate, ◌-◌, ltb, ◌=?◌, ℕ, ◌+◌, ◌≡◌, refl, none, some, List, [], ◌∷◌, codes,
  nat_comparable, if◌then◌else◌, arith,
}
use astral_go.Sig.Ring.{Ring, push, clone}
use astral_go.Sig.Ring.Contents
use astral_go.Sig.Ring.Refines.{offer, push-offer}
use astral_go.Sig.SliceDiff.{Ordered, slice_diff, slice_diff_ordered, slice_diff_func, pos}
use astral_go.Sig.SliceDiff.Laws.{slice_diff_ordered-slice_diff, slice_diff_func_stuck}
use astral_go.Sig.Pool
use astral_go.Sig.Times.{times}
use astral_go.Sig.Pool.Laws as PoolLaws
use astral_go.Sig.Queue
use astral_go.Sig.Queue.Items.{is_closed, pushed}
use astral_go.Sig.Queue.Laws as QueueLaws

abbrev full_ring : Ring ℕ
full_ring = record {
  items = 1 ∷ 2 ∷ [];
  head = 0;
  tail = 0;
  size = 2;
  capacity = 2;
  zero_value = 0;
}

full_ring-IsValid : Contents.IsValid full_ring
full_ring-IsValid = record {
  length_items = refl;
  positive = omega arith;
  tail_in = omega arith;
  size_fits = omega arith;
  head_after = refl;
}

push-offer_example :
    (clone (push 3 full_ring).0, (push 3 full_ring).1)
    ≡ offer full_ring.capacity 3 (clone full_ring)
push-offer_example = push-offer 3 full_ring full_ring-IsValid

ltb_irrefl : (x : ℕ) → ltb x x ≡ false
ltb_irrefl x = ground arith

ltb_trans : (x y z : ℕ) → ltb x y ≡ true → ltb y z ≡ true → ltb x z ≡ true
ltb_trans x y z h k = ground (arith, h, k)

ltb_total : (x y : ℕ) → (x =? y) ≡ false → ltb x y ≡ false → ltb y x ≡ true
ltb_total x y h k = ground (arith, h, k)

instance abbrev nat_ordered : Ordered ℕ
nat_ordered = record {
  lt = ltb;
  lt_irrefl = ltb_irrefl;
  lt_trans = ltb_trans;
  lt_total = ltb_total;
}

slice_diff_ordered-slice_diff_example :
    slice_diff_ordered (1 ∷ 2 ∷ []) (2 ∷ 3 ∷ []) ≡ slice_diff {T = ℕ} (1 ∷ 2 ∷ []) (2 ∷ 3 ∷ [])
slice_diff_ordered-slice_diff_example =
    slice_diff_ordered-slice_diff (1 ∷ 2 ∷ []) (2 ∷ 3 ∷ []) ((refl, tt), (tt, tt))
      ((refl, tt), (tt, tt))

slice_diff_func_stuck_example :
    slice_diff_func {T = ℕ} (λ x y. pos 2) (λ l. l) 9 (1 ∷ []) (2 ∷ []) ≡ none
slice_diff_func_stuck_example =
    slice_diff_func_stuck {T = ℕ} (λ x y. pos 2) (λ l. l) (1 ∷ []) (2 ∷ []) 0 1 2 [] [] refl refl
      refl 9

abbrev two_of_each : Pool.Pool
two_of_each = record { cap = λ x. 2; locked = λ x. 0 }

abbrev disks : List (List ℕ)
disks = codes "a" ∷ codes "b" ∷ []

try_lock_atomic_example :
    ((Pool.try_lock disks two_of_each).0.cap (codes "a") ≡ two_of_each.cap (codes "a"))
    × ((Pool.try_lock disks two_of_each).0.locked (codes "a") ≡ (
        if (Pool.try_lock disks two_of_each).1
        then two_of_each.locked (codes "a") + times (codes "a") disks
        else two_of_each.locked (codes "a")))
try_lock_atomic_example = PoolLaws.try_lock_atomic disks two_of_each (codes "a")

-- A subscriber that waits, receives two items and sees the end.
abbrev queue_actions : List (Queue.Action ℕ)
queue_actions =
    Queue.takes
    ∷ Queue.pushes 1
    ∷ Queue.pushes 2
    ∷ Queue.takes
    ∷ Queue.closes
    ∷ Queue.takes
    ∷ Queue.takes
    ∷ []

abbrev at_end : Queue.Subscription ℕ
at_end = record {
  queue = Queue.link 1 (Queue.link 2 (Queue.last Queue.closed_channel));
  position = 2;
  received = 1 ∷ 2 ∷ [];
  cancelled = false;
  loop = Queue.returned_at_end;
}

queue_run : Queue.run queue_actions (Queue.subscribe (Queue.last Queue.nil_channel)) ≡ some at_end
unfolding Queue.run Queue.subscribe Queue.wait
queue_run = refl

run-received_example :
    (at_end.received ≡ 1 ∷ 2 ∷ [])
    × (at_end.loop ≡ Queue.returned_at_end
        → (at_end.received ≡ 1 ∷ 2 ∷ []) × (is_closed at_end.queue ≡ true))
    × (at_end.loop ≡ Queue.returned_at_done → at_end.cancelled ≡ true)
    × (at_end.loop ≡ Queue.looping
        → (s' : Queue.Subscription ℕ) × (Queue.run
              (replicate (2 - at_end.position) Queue.takes)
              at_end
            ≡ some s')
          × (s'.received ≡ 1 ∷ 2 ∷ []))
unfolding pushed
run-received_example = QueueLaws.run-received queue_actions at_end queue_run

-- A subscriber that leaves the second item behind when its context is cancelled.
cancelled_run :
    Queue.run {T = ℕ}
      (Queue.pushes 1
        ∷ Queue.pushes 2
        ∷ Queue.leaves
        ∷ Queue.takes
        ∷ Queue.cancels
        ∷ Queue.leaves
        ∷ Queue.takes
        ∷ [])
      (Queue.subscribe (Queue.last Queue.nil_channel))
    ≡ some (record {
      queue = Queue.link 1 (Queue.link 2 (Queue.last Queue.nil_channel));
      position = 1;
      received = 1 ∷ [];
      cancelled = true;
      loop = Queue.returned_at_done;
    })
unfolding Queue.run Queue.subscribe Queue.wait
cancelled_run = refl

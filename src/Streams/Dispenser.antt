-- ===== src/Streams/Dispenser.antt =====
-- streams/dispenser.go: a writer that passes on as many bytes as it has been allowed.
pub mod Laws
use astral_go.Base.{
  ℕ, ◌+◌, ◌-◌, ◌%◌, ◌^◌, leb, min, Bool, true, false, Option, none, some, List, [], ◌∷◌, ◌++◌,
  length, take, drop, ◌==◌, if◌then◌else◌,
}
use astral_go.Streams.Async.{Answer, accepts, breaks}

-- `output` records what the underlying writer has taken. The limit is an int of 64 bits, written as
-- the number below 2 ^ 64 that stands for it in two's complement.
pub record Dispenser : Type 0 where
  pub limit : ℕ
  pub unlimited : Bool
  pub closed : Bool
  pub output : List ℕ

unfoldable pub new_dispenser : Dispenser
new_dispenser = record { limit = 0; unlimited = false; closed = false; output = [] }

unfoldable pub increase : ℕ → Dispenser → Dispenser
increase i d = record d { limit = (d.limit + i) % 2 ^ 64 }

-- An int that is below 0.
abbrev pub is_negative : ℕ → Bool
is_negative i = leb (2 ^ 63) i

unfoldable pub set_unlimited : Bool → Dispenser → Dispenser
set_unlimited v d = record d { unlimited = v }

unfoldable pub close : Dispenser → Dispenser
close d = record d { closed = true }

-- What a round of Write's loop comes to: it returns, with the error of the writer or of a closed
-- pipe, it waits, it goes on with the rest of the bytes, or it panics.
pub data Progress (E : Type 0) : Type 0 where
  returns : Progress E
  breaks_off : E → Progress E
  closed_pipe : Progress E
  waits : Progress E
  panics : Progress E
  goes_on : List ℕ → Progress E

module _ {E : Type 0} where
  -- The underlying writer takes at most the bytes that it is given.
  unfoldable pub pass_on : Answer E → List ℕ → Dispenser → Dispenser × Progress E
  pass_on (accepts n) p d = (record d { output = d.output ++ take n p }, returns)
  pass_on (breaks n e) p d = (record d { output = d.output ++ take n p }, breaks_off e)

  -- A round with `p` left to write and a limit above 0.
  unfoldable pub limited_round : Answer E → List ℕ → Dispenser → Dispenser × Progress E
  limited_round (accepts n) p d =
      let part = take (min (length p) d.limit) p in
      (
        record d { output = d.output ++ take n part; limit = d.limit - length (take n part) },
        goes_on (drop (length (take n part)) p),
      )
  limited_round (breaks n e) p d =
      let part = take (min (length p) d.limit) p in
      (record d { output = d.output ++ take n part }, breaks_off e)

  -- A round of the loop. Of a negative limit the slice p[:l] panics.
  unfoldable pub write_round : Answer E → List ℕ → Dispenser → Dispenser × Progress E
  write_round answer p d =
      if length p == 0
      then (d, returns)
      else if d.unlimited
      then pass_on answer p d
      else if d.closed
      then (d, closed_pipe)
      else if d.limit == 0
      then (d, waits)
      else if is_negative d.limit
      then (d, panics)
      else limited_round answer p d

  -- A call of Write up to its first wait or the end of its first round.
  unfoldable pub write : Answer E → List ℕ → Dispenser → Dispenser × Progress E
  unfolding write_round
  write answer p d =
      if d.closed
      then (d, closed_pipe)
      else if d.unlimited
      then pass_on answer p d
      else write_round answer p d

  -- The loop of Write over a writer that takes the numbers of bytes listed, up to its first wait.
  unfoldable pub write_loop : List ℕ → List ℕ → Dispenser → Dispenser × Progress E
  unfolding write_round
  write_loop [] p d = (d, goes_on p)
  write_loop (n ∷ ns) p d =
      let round = write_round (accepts n) p d in
      elim round.1 [ goes_on rest ↦ write_loop ns rest round.0 | _ ↦ round ]

-- The calls, with the rounds of Write between them.
pub data Event (E : Type 0) : Type 0 where
  increases : ℕ → Event E
  closes : Event E
  writes rounds : List ℕ → ℕ → Event E

-- The steps of a dispenser that is never unlimited, over a writer that does not fail.
unfoldable pub step : {E : Type 0} → Event E → Dispenser → Dispenser
step (increases i) d = increase i d
step closes d = close d
step {E = E} (writes p n) d = (write {E = E} (accepts n) p d).0
step {E = E} (rounds p n) d = (write_round {E = E} (accepts n) p d).0

unfoldable pub run : {E : Type 0} → List (Event E) → Dispenser → Dispenser
run [] d = d
run (e ∷ es) d = run es (step e d)

-- ===== src/Streams/Async.antt =====
-- streams/async_writer.go: a writer that queues chunks in memory and a goroutine, the flusher, that
-- writes them to the underlying writer. The underlying writer is an environment: an event carries
-- the answer of its Write.
pub mod Delivery
pub mod Bounds
use astral_go.Base.{
  ℕ, zero, suc, ◌+◌, ◌-◌, ◌⊎◌, inl, inr, Bool, true, false, Option, none, some, List, [], ◌∷◌, ◌++◌,
  length, take, drop, ltb, if◌then◌else◌,
}

-- `chunk` is the flusher's local variable: what is left of the chunk that it writes, while it does.
-- `output` and `flushed` record what the underlying writer has taken and what AfterFlush was called
-- with. `done` says that the flusher has returned.
pub record Writer (E : Type 0) : Type 0 where
  pub chunks : List (List ℕ)
  pub buffer_size : ℕ
  pub used : ℕ
  pub write_err : Option E
  pub closed : Bool
  pub done : Bool
  pub chunk : Option (List ℕ)
  pub output : List ℕ
  pub flushed : List (List ℕ)

pub data WriteError (E : Type 0) : Type 0 where
  write_err : E → WriteError E
  closed_pipe : WriteError E
  buffer_overflow : WriteError E

-- What Write of the underlying writer returns: the number of bytes, and an error or none.
pub data Answer (E : Type 0) : Type 0 where
  accepts : ℕ → Answer E
  breaks : ℕ → E → Answer E

module _ {E : Type 0} where
  unfoldable pub new_async_writer : ℕ → Writer E
  new_async_writer buffer_size = record {
    chunks = [];
    buffer_size = buffer_size;
    used = 0;
    write_err = none;
    closed = false;
    done = false;
    chunk = none;
    output = [];
    flushed = [];
  }

  unfoldable pub write : List ℕ → Writer E → Writer E × (ℕ ⊎ WriteError E)
  write p w = elim w.write_err [
    | some e ↦ (w, inr (WriteError.write_err e))
    | none ↦
        if w.closed
        then (w, inr closed_pipe)
        else if ltb w.buffer_size (w.used + length p)
        then (w, inr buffer_overflow)
        else (record w { chunks = w.chunks ++ (p ∷ []); used = w.used + length p }, inl (length p))
  ]

  unfoldable pub close : Writer E → Writer E
  close w = record w { closed = true }

  unfoldable pub set_buffer_size : ℕ → Writer E → Writer E
  set_buffer_size n w = record w { buffer_size = n }

  -- Sync: none while it waits, some when it returns, with the error or without.
  unfoldable pub sync : Writer E → Option (Option E)
  sync w = elim w.write_err [
    | some e ↦ some (some e)
    | none ↦ elim w.chunks [ [] ↦ some none | c ∷ cs ↦ none ]
  ]

  unfoldable pub dequeue : Writer E → Writer E
  dequeue w = elim w.chunks [
    | [] ↦ w
    | c ∷ cs ↦ record w { chunks = cs; used = w.used - length c; flushed = w.flushed ++ (c ∷ []) }
  ]

  -- One round of the flusher: it takes the next chunk, writes a part of it, removes a chunk that is
  -- written, returns, or waits.
  unfoldable pub flusher_round : Answer E → Writer E → Writer E
  flusher_round answer w = if w.done then w else elim w.chunk [
    | none ↦ elim w.chunks [
      | c ∷ cs ↦ record w { chunk = some c }
      | [] ↦ if w.closed then record w { done = true } else w
    ]
    | some [] ↦ record (dequeue w) { chunk = none }
    | some (b ∷ bs) ↦ elim answer [
      | accepts n ↦ record w {
        chunk = some (drop n (b ∷ bs));
        output = w.output ++ take n (b ∷ bs);
      }
      | breaks n e ↦ record w {
        chunk = some (drop n (b ∷ bs));
        output = w.output ++ take n (b ∷ bs);
        write_err = some e;
        done = true;
      }
    ]
  ]

-- The steps of the program: calls of the writer's methods, between the flusher's rounds.
pub data Event (E : Type 0) : Type 0 where
  writes : List ℕ → Event E
  closes : Event E
  resizes : ℕ → Event E
  flushes : Answer E → Event E

module _ {E : Type 0} where
  unfoldable pub step : Event E → Writer E → Writer E
  step (writes p) w = (write p w).0
  step closes w = close w
  step (resizes n) w = set_buffer_size n w
  step (flushes answer) w = flusher_round answer w

  unfoldable pub run : List (Event E) → Writer E → Writer E
  run [] w = w
  run (e ∷ es) w = run es (step e w)

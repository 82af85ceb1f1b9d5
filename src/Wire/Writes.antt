-- ===== src/Wire/Writes.antt =====
-- What a writer appends to its stream: `Writes d f w bs` says that `w` appends exactly the bytes
-- `bs` and reports their number, under every ledger that allows `d` nested frames, `f` frames and
-- the bytes. Rules for each way to build a writer.
use astral_go.Base.{
  ℕ, ◌+◌, ◌≤◌, ◌≡◌, refl, Option, none, some, List, [], ◌++◌, append_assoc, append-nil, length,
  arith, length-append,
}
use mathlib.Core.Path.{subst}
use astral_go.Wire.Out.{ok, ◌>>◌, pure, zero_on_fail}
use astral_go.Wire.Ledger.{Ledger, Allows, spend}
use astral_go.Wire.Ledger.Laws.{spend-zero, spend-spend, Allows-left, Allows-right, Allows-weaken}
use astral_go.Wire.Stream.{Sink, Writer, write, framed_write}

abbrev pub sink : List ℕ → Option Ledger → Sink
sink output ledger = record { output = output; ledger = ledger }

pub record Writes (d f : ℕ) (w : Writer) (bs : List ℕ) : Type 0 where
  pub at :
      (out : List ℕ) (L : Option Ledger)
      → Allows d f (length bs) L
      → w (sink out L) ≡ ok tt (length bs) (sink (out ++ bs) (spend f (length bs) L))

pub Writes-pure : (d : ℕ) → Writes d 0 (pure tt) []
Writes-pure d = record { at = λ out L h. rw (spend-zero L, append-nil) refl }

pub Writes-write : (d : ℕ) (bs : List ℕ) → Writes d 0 (write bs) bs
Writes-write d bs = record { at = write_at }
  where
    write_at :
        (out : List ℕ) (L : Option Ledger)
        → Allows d 0 (length bs) L
        → write bs (sink out L) ≡ ok tt (length bs) (sink (out ++ bs) (spend 0 (length bs) L))
    write_at out none h = unfold write in refl
    write_at out (some b) h = unfold write in ground arith

pub Writes-then :
    {d f g : ℕ} (v w : Writer) {bs cs : List ℕ}
    → Writes d f v bs
    → Writes d g w cs
    → Writes d (f + g) (v >> w) (bs ++ cs)
Writes-then {d} {f} {g} v w {bs} {cs} hv hw = record {
  at = λ out L h.
      let len : length (bs ++ cs) ≡ length bs + length cs = length-append bs cs in
      let h' : Allows d (f + g) (length bs + length cs) L = rw len at h in
      rw
        (
          hv.at out L (Allows-left d f g _ _ L h'),
          hw.at (out ++ bs) _ (Allows-right d f g _ _ L h'),
          len,
          spend-spend,
          append_assoc,
        )
        refl;
}

pub Writes-depth :
    {d d' f : ℕ} {w : Writer} {bs : List ℕ} → d ≤ d' → Writes d f w bs → Writes d' f w bs
Writes-depth {d = d} {d' = d'} {f = f} p h = record {
  at = λ out L al. h.at out L (Allows-weaken d d' f f _ L p (omega arith) al);
}

pub Writes-zero_on_fail :
    {d f : ℕ} {w : Writer} {bs : List ℕ} → Writes d f w bs → Writes d f (λ s. zero_on_fail (w s)) bs
Writes-zero_on_fail h = record { at = λ out L al. rw (h.at out L al) }

module _ {d f : ℕ} {w : Writer} {bs : List ℕ} (h : Writes d f w bs) where
  framed_at :
      (out : List ℕ) (L : Option Ledger)
      → Allows (d + 1) (f + 1) (length bs) L
      → framed_write w (sink out L)
        ≡ ok tt (length bs) (sink (out ++ bs) (spend (f + 1) (length bs) L))
  unfolding framed_write
  framed_at out none al =
      ground (arith, h.at out (some (record { depth = 1; frames = 1; bytes = 0 })) (omega arith))
  framed_at out (some b) al = ground (
    arith,
    h.at out (some (record b { depth = b.depth + 1; frames = b.frames + 1 })) (omega arith),
  )

  -- A frame takes one more level of depth, and one frame more.
  pub Writes-framed : Writes (d + 1) (f + 1) (framed_write w) bs
  Writes-framed = record { at = framed_at }

pub Writes-frames :
    {d f f' : ℕ} {w : Writer} {bs : List ℕ} → f ≡ f' → Writes d f w bs → Writes d f' w bs
Writes-frames {d} {w = w} {bs = bs} e h = subst (λ k. Writes d k w bs) e h

-- ===== src/Wire/Reads.antt =====
-- What a reader takes from the front of its stream: `Reads d f m bs a` says that `m` takes exactly
-- the bytes `bs` and yields `a`, reporting their number, under every ledger that allows `d` nested
-- frames, `f` frames and the bytes. Rules for each way to build a reader.
use astral_go.Base.{
  ℕ, zero, suc, ◌+◌, ◌-◌, ◌≤◌, min, ◌≡◌, refl, sym, ◌∙◌, false, Option, none, some, List, [], ◌∷◌,
  ◌++◌, append_assoc, ◌==◌, length, arith, length-append, take-append_length, drop-append_length,
}
use mathlib.Core.Path.{subst}
use astral_go.Wire.Out.{ok, ◌>>=◌, pure, zero_on_fail, no_eof}
use astral_go.Wire.Ledger.{Ledger, Allows, spend, room}
use astral_go.Wire.Ledger.Laws.{spend-zero, spend-spend, Allows-left, Allows-right, Allows-weaken}
use astral_go.Wire.Stream.{Source, Reader, read, read_loop, read_full, framed_read}

abbrev pub source : List ℕ → Option Ledger → Source
source input ledger = record { input = input; ledger = ledger }

pub record Reads {A : Type 0} (d f : ℕ) (m : Reader A) (bs : List ℕ) (a : A) : Type 0 where
  pub at :
      (rest : List ℕ) (L : Option Ledger)
      → Allows d f (length bs) L
      → m (source (bs ++ rest) L) ≡ ok a (length bs) (source rest (spend f (length bs) L))

pub Reads-pure : {A : Type 0} (d : ℕ) (a : A) → Reads d 0 (pure a) [] a
Reads-pure d a = record { at = λ rest L h. rw (spend-zero L) refl }

-- One Read is enough where the bytes are there and the budget allows them.
read_enough :
    (x : ℕ) (bs rest : List ℕ) (L : Option Ledger) (k : ℕ)
    → k ≡ length (x ∷ bs)
    → Allows 0 0 k L
    → read k (source ((x ∷ bs) ++ rest) L) ≡ ok (x ∷ bs) k (source rest (spend 0 k L))
unfolding read
read_enough x bs rest none k e h = ground (
  arith,
  take-append_length (x ∷ bs) rest k e,
  drop-append_length (x ∷ bs) rest k e,
  length-append (x ∷ bs) rest,
)
read_enough x bs rest (some b) k e h =
    let m : min k (room b) ≡ k = omega arith in
    rw m (
      ground (
        arith,
        take-append_length (x ∷ bs) rest k e,
        drop-append_length (x ∷ bs) rest k e,
        length-append (x ∷ bs) rest,
      ))

read_loop_done :
    (f k : ℕ) (got : List ℕ) (s : Source) → length got ≡ k → read_loop f k got s ≡ ok got k s
unfolding read_loop
read_loop_done zero k got s h = ground arith
read_loop_done (suc f) k got s h = ground arith

read_loop_round :
    (f k : ℕ) (got p : List ℕ) (n : ℕ) (s s' : Source)
    → (length got == k) ≡ false
    → read (k - length got) s ≡ ok p n s'
    → read_loop (suc f) k got s ≡ read_loop f k (got ++ p) s'
unfolding read_loop
read_loop_round f k got p n s s' t e = ground arith

read_full_once :
    (k : ℕ) (p : List ℕ) (s s' : Source)
    → read (suc k) s ≡ ok p (suc k) s'
    → length p ≡ suc k
    → read_full (suc k) s ≡ ok p (suc k) s'
unfolding read_full
read_full_once k p s s' e h =
    let zero_left : suc k - 0 ≡ suc k = omega arith in
    read_loop_round k (suc k) [] p (suc k) s s' (ground arith) (rw zero_left e)
    ∙ read_loop_done k (suc k) p s' h

-- io.ReadFull takes exactly the bytes asked for.
pub Reads-read_full : (bs : List ℕ) (k : ℕ) → length bs ≡ k → Reads 0 0 (read_full k) bs bs
Reads-read_full [] zero e = record { at = λ rest L h. unfold read_full in rw (spend-zero L) refl }
Reads-read_full [] (suc k) e = absurd (omega arith)
Reads-read_full (x ∷ bs) zero e = absurd (omega arith)
Reads-read_full (x ∷ bs) (suc k) e = record {
  at = λ rest L h.
      rw e (read_full_once k (x ∷ bs) _ _ (read_enough x bs rest L (suc k) (sym e) (rw e at h)) e);
}

module _ {A B : Type 0} where
  pub Reads-bind :
      {d f g : ℕ} (m : Reader A) (k : A → Reader B) {a : A} {b : B} {bs cs : List ℕ}
      → Reads d f m bs a
      → Reads d g (k a) cs b
      → Reads d (f + g) (m >>= k) (bs ++ cs) b
  Reads-bind {d} {f} {g} m k {a} {b} {bs} {cs} hm hk = record {
    at = λ rest L h.
        let len : length (bs ++ cs) ≡ length bs + length cs = length-append bs cs in
        let h' : Allows d (f + g) (length bs + length cs) L = rw len at h in
        rw
          (
            append_assoc,
            hm.at (cs ++ rest) L (Allows-left d f g _ _ L h'),
            hk.at rest _ (Allows-right d f g _ _ L h'),
            len,
            spend-spend,
          )
          refl;
  }

  -- A computation with the value afterwards.
  pub Reads-value :
      {d f : ℕ} (m : Reader A) {a : A} {bs : List ℕ} (k : A → B)
      → Reads d f m bs a
      → Reads d f (m >>= λ x. pure (k x)) bs (k a)
  Reads-value m {bs = bs} k hm = record { at = λ rest L h. rw (hm.at rest L h) (ground arith) }

pub Reads-depth :
    {A : Type 0} {d d' f : ℕ} {m : Reader A} {bs : List ℕ} {a : A}
    → d ≤ d'
    → Reads d f m bs a
    → Reads d' f m bs a
Reads-depth {d = d} {d' = d'} {f = f} p h = record {
  at = λ rest L al. h.at rest L (Allows-weaken d d' f f _ L p (omega arith) al);
}

module _ {A : Type 0} {d f : ℕ} {m : Reader A} {bs : List ℕ} {a : A} (h : Reads d f m bs a) where
  framed_at :
      (rest : List ℕ) (L : Option Ledger)
      → Allows (d + 1) (f + 1) (length bs) L
      → framed_read m (source (bs ++ rest) L)
        ≡ ok a (length bs) (source rest (spend (f + 1) (length bs) L))
  unfolding framed_read
  framed_at rest none al =
      ground (arith, h.at rest (some (record { depth = 1; frames = 1; bytes = 0 })) (omega arith))
  framed_at rest (some b) al = ground (
    arith,
    h.at rest (some (record b { depth = b.depth + 1; frames = b.frames + 1 })) (omega arith),
  )

module _ {A : Type 0} where
  pub Reads-zero_on_fail :
      {d f : ℕ} {m : Reader A} {bs : List ℕ} {a : A}
      → Reads d f m bs a
      → Reads d f (λ s. zero_on_fail (m s)) bs a
  Reads-zero_on_fail h = record { at = λ rest L al. rw (h.at rest L al) }

  pub Reads-no_eof :
      {d f : ℕ} {m : Reader A} {bs : List ℕ} {a : A}
      → Reads d f m bs a
      → Reads d f (λ s. no_eof (m s)) bs a
  Reads-no_eof h = record { at = λ rest L al. rw (h.at rest L al) }

  -- A frame takes one more level of depth, and one frame more.
  pub Reads-framed :
      {d f : ℕ} {m : Reader A} {bs : List ℕ} {a : A}
      → Reads d f m bs a
      → Reads (d + 1) (f + 1) (framed_read m) bs a
  Reads-framed {d} {f} {m} {bs} {a} h = record { at = framed_at h }

pub Reads-frames :
    {A : Type 0} {d f f' : ℕ} {m : Reader A} {bs : List ℕ} {a : A}
    → f ≡ f'
    → Reads d f m bs a
    → Reads d f' m bs a
Reads-frames {d = d} {m = m} {bs = bs} {a = a} e h = subst (λ k. Reads d k m bs a) e h

-- ===== src/Runtime/Frames.antt =====
-- The rules of Wire/Reads and Wire/Writes with the number of frames left open.
use astral_go.Base.{
  ℕ, ◌+◌, ◌≤◌, ◌≡◌, refl, none, some, Option, List, ◌++◌, append-nil, length, arith,
}
use mathlib.Core.Path.{subst}
use astral_go.Wire.Out.{ok, ◌>>=◌, ◌>>◌, pure}
use astral_go.Wire.Ledger.{Ledger, Allows, spend, fresh}
use astral_go.Wire.Stream.{Reader, Writer, framed_read, framed_write, attach_writer}
use astral_go.Wire.Reads.{Reads, Reads-pure, Reads-bind, Reads-value, Reads-depth, Reads-framed}
use astral_go.Wire.Writes.{Writes, Writes-then, Writes-depth, Writes-framed, sink}

-- There is a number of frames with which the writer appends the bytes.
abbrev pub WritesTo : ℕ → Writer → List ℕ → Type 0
WritesTo d w bs = (f : ℕ) × Writes d f w bs

abbrev pub ReadsTo : {A : Type 0} → ℕ → Reader A → List ℕ → A → Type 0
ReadsTo d m bs a = (f : ℕ) × Reads d f m bs a

pub WritesTo-then :
    {d : ℕ} (v w : Writer) {bs cs : List ℕ}
    → WritesTo d v bs
    → WritesTo d w cs
    → WritesTo d (v >> w) (bs ++ cs)
WritesTo-then v w hv hw = (hv.0 + hw.0, Writes-then v w hv.1 hw.1)

pub WritesTo-framed :
    {d : ℕ} {w : Writer} {bs : List ℕ} → WritesTo d w bs → WritesTo (d + 1) (framed_write w) bs
WritesTo-framed h = (h.0 + 1, Writes-framed h.1)

pub WritesTo-depth :
    {d d' : ℕ} {w : Writer} {bs : List ℕ} → d ≤ d' → WritesTo d w bs → WritesTo d' w bs
WritesTo-depth p h = (h.0, Writes-depth p h.1)

pub WritesTo-attached :
    {d : ℕ} {w : Writer} {bs : List ℕ} → WritesTo d w bs → WritesTo d (attach_writer w) bs
WritesTo-attached {d} {w} {bs} (f, h) = (f, record { at = at })
  where
    at :
        (out : List ℕ) (L : Option Ledger)
        → Allows d f (length bs) L
        → attach_writer w (sink out L)
          ≡ ok tt (length bs) (sink (out ++ bs) (spend f (length bs) L))
    at out none al =
        let inner = h.at out (some fresh) (omega arith) in unfold attach_writer in rw inner refl
    at out (some b) al = unfold attach_writer in h.at out (some b) al

module _ {A B : Type 0} where
  pub ReadsTo-bind :
      {d : ℕ} (m : Reader A) (k : A → Reader B) {a : A} {b : B} {bs cs : List ℕ}
      → ReadsTo d m bs a
      → ReadsTo d (k a) cs b
      → ReadsTo d (m >>= k) (bs ++ cs) b
  ReadsTo-bind m k hm hk = (hm.0 + hk.0, Reads-bind m k hm.1 hk.1)

  pub ReadsTo-value :
      {d : ℕ} (m : Reader A) {a : A} {bs : List ℕ} (k : A → B)
      → ReadsTo d m bs a
      → ReadsTo d (m >>= λ x. pure (k x)) bs (k a)
  ReadsTo-value m k h = (h.0, Reads-value m k h.1)

module _ {A : Type 0} where
  pub ReadsTo-framed :
      {d : ℕ} {m : Reader A} {bs : List ℕ} {a : A}
      → ReadsTo d m bs a
      → ReadsTo (d + 1) (framed_read m) bs a
  ReadsTo-framed h = (h.0 + 1, Reads-framed h.1)

  pub ReadsTo-depth :
      {d d' : ℕ} {m : Reader A} {bs : List ℕ} {a : A}
      → d ≤ d'
      → ReadsTo d m bs a
      → ReadsTo d' m bs a
  ReadsTo-depth p h = (h.0, Reads-depth p h.1)

  -- A tag, and nothing behind it.
  pub ReadsTo-last :
      {T : Type 0} {d : ℕ} (m : Reader T) (k : T → Reader A) {t : T} {a : A} {bs : List ℕ}
      → ReadsTo d m bs t
      → k t ≡ pure a
      → ReadsTo d (m >>= k) bs a
  ReadsTo-last {d = d} m k {t} {a} {bs} hm e =
      subst (λ cs. ReadsTo d (m >>= k) cs a) (append-nil bs)
        (ReadsTo-bind m k hm (0, rw e (Reads-pure d a)))

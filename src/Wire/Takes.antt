-- ===== src/Wire/Takes.antt =====
-- Honest readers: a reader that succeeds has taken exactly as many bytes from the stream as it
-- reports.
use astral_go.Base.{
  ℕ, zero, suc, ◌+◌, ◌-◌, min, ◌≤◌, ◌<◌, ◌≡◌, refl, ◌∙◌, Option, none, some, List, [], ◌++◌, length,
  length-take, length-drop, length-append, arith, inl, inr,
}
use astral_go.Wire.Out.{
  Out, ok, fail, plus, ◌>>=◌, pure, raise, zero_on_fail, no_eof, Error, Out-cases,
}
use astral_go.Wire.Ledger.{Ledger, room, enter, fresh}
use astral_go.Wire.Stream.{Source, Reader, read, read_loop, read_full, framed_read}

pub record Takes {A : Type 0} (m : Reader A) : Type 0 where
  pub at :
      (s : Source) (a : A) (n : ℕ) (s' : Source)
      → m s ≡ ok a n s'
      → length s.input ≡ n + length s'.input

pub Takes-pure : {A : Type 0} (a : A) → Takes (pure a)
Takes-pure a = record { at = λ s b n s' e. ground arith }

pub Takes-raise : {A : Type 0} (e : Error) → Takes (raise {A = A} e)
Takes-raise e = record { at = λ s b n s' h. cc }

module _ {A : Type 0} where
  pub Takes-zero_on_fail : {m : Reader A} → Takes m → Takes (λ s. zero_on_fail (m s))
  Takes-zero_on_fail {m} h = record { at = λ s a n s' e. go s a n s' (m s) refl e }
    where
      go :
          (s : Source) (a : A) (n : ℕ) (s' : Source) (o : Out Source A)
          → m s ≡ o
          → zero_on_fail o ≡ ok a n s'
          → length s.input ≡ n + length s'.input
      go s a n s' (ok b k t) p e = h.at s a n s' (p ∙ e)
      go s a n s' (fail x k t) p e = cc

  pub Takes-no_eof : {m : Reader A} → Takes m → Takes (λ s. no_eof (m s))
  Takes-no_eof {m} h = record { at = λ s a n s' e. go s a n s' (m s) refl e }
    where
      go :
          (s : Source) (a : A) (n : ℕ) (s' : Source) (o : Out Source A)
          → m s ≡ o
          → no_eof o ≡ ok a n s'
          → length s.input ≡ n + length s'.input
      go s a n s' (ok b k t) p e = h.at s a n s' (p ∙ e)
      go s a n s' (fail x k t) p e = cc

module _ {A B : Type 0} where
  pub Takes-bind :
      {m : Reader A} {k : A → Reader B} → Takes m → ((a : A) → Takes (k a)) → Takes (m >>= k)
  Takes-bind {m} {k} hm hk = record { at = λ s b n s' e. first s b n s' (m s) refl e }
    where
      second :
          (s : Source) (b : B) (n : ℕ) (s' : Source) (a : A) (i : ℕ) (t : Source) (o : Out Source B)
          → length s.input ≡ i + length t.input
          → k a t ≡ o
          → plus i o ≡ ok b n s'
          → length s.input ≡ n + length s'.input
      second s b n s' a i t (ok c j u) h p e = ground (arith, (hk a).at t c j u p)
      second s b n s' a i t (fail x j u) h p e = cc

      first :
          (s : Source) (b : B) (n : ℕ) (s' : Source) (o : Out Source A)
          → m s ≡ o
          → astral_go.Wire.Out.then_with o k ≡ ok b n s'
          → length s.input ≡ n + length s'.input
      first s b n s' (ok a i t) p e = second s b n s' a i t (k a t) (hm.at s a i t p) refl e
      first s b n s' (fail x i t) p e = cc

-- One Read, with the length of what it hands over.
read_takes :
    (k : ℕ) (i : List ℕ) (L : Option Ledger) (p : List ℕ) (n : ℕ) (s' : Source)
    → read k (record { input = i; ledger = L }) ≡ ok p n s'
    → (length p ≡ n) × (length i ≡ n + length s'.input)
unfolding read
read_takes k i none p n s' e = ground (arith, length-take k i, length-drop k i)
read_takes k i (some b) p n s' e =
    ground (arith, length-take (min k (room b)) i, length-drop (min k (room b)) i)

read_loop_takes :
    (f k : ℕ) (got : List ℕ) (s : Source) (a : List ℕ) (n : ℕ) (s' : Source)
    → read_loop f k got s ≡ ok a n s'
    → (length a ≡ n) × (length got + length s.input ≡ n + length s'.input)
unfolding read_loop
read_loop_takes zero k got s a n s' e = ground arith
read_loop_takes (suc f) k got s a n s' e = elim (Out-cases (read (k - length got) s)) [
  | inl (p, m, t, r) ↦ ground (
    arith,
    r,
    read_takes (k - length got) s.input s.ledger p m t r,
    length-append got p,
    read_loop_takes f k (got ++ p) t a n s',
  )
  | inr (x, m, t, r) ↦ ground (arith, r)
]

pub Takes-read_full : (k : ℕ) → Takes (read_full k)
unfolding read_full
Takes-read_full k = record { at = λ s a n s' e. omega (arith, read_loop_takes k k [] s a n s' e) }

pub length-read_full :
    (k : ℕ) (s : Source) (a : List ℕ) (n : ℕ) (s' : Source)
    → read_full k s ≡ ok a n s'
    → length a ≡ n
unfolding read_full
length-read_full k s a n s' e = (read_loop_takes k k [] s a n s' e).0

-- A read that succeeds yields a byte, and no more than it was asked for.
read_some :
    (k : ℕ) (i : List ℕ) (L : Option Ledger) (p : List ℕ) (n : ℕ) (s' : Source)
    → 0 < k
    → read k (record { input = i; ledger = L }) ≡ ok p n s'
    → (0 < n) × (n ≤ k)
unfolding read
read_some k i none p n s' h e = ground arith
read_some k i (some b) p n s' h e = ground arith

read_loop_exact :
    (f k : ℕ) (got : List ℕ) (s : Source) (a : List ℕ) (n : ℕ) (s' : Source)
    → length got ≤ k
    → k ≤ length got + f
    → read_loop f k got s ≡ ok a n s'
    → n ≡ k
unfolding read_loop
read_loop_exact zero k got s a n s' h j e = ground arith
read_loop_exact (suc f) k got s a n s' h j e = elim (Out-cases (read (k - length got) s)) [
  | inl (p, m, t, r) ↦ ground (
    arith,
    r,
    read_takes (k - length got) s.input s.ledger p m t r,
    read_some (k - length got) s.input s.ledger p m t,
    length-append got p,
    read_loop_exact f k (got ++ p) t a n s',
  )
  | inr (x, m, t, r) ↦ ground (arith, r)
]

-- io.ReadFull that succeeds has read exactly what was asked for.
pub read_full_exact :
    (k : ℕ) (s : Source) (a : List ℕ) (n : ℕ) (s' : Source) → read_full k s ≡ ok a n s' → n ≡ k
unfolding read_full
read_full_exact k s a n s' e = read_loop_exact k k [] s a n s' (omega arith) (omega arith) e

module _ {A : Type 0} {m : Reader A} (h : Takes m) where
  framed_takes :
      (i : List ℕ) (L : Option Ledger) (a : A) (n : ℕ) (s' : Source)
      → framed_read m (record { input = i; ledger = L }) ≡ ok a n s'
      → length i ≡ n + length s'.input
  unfolding framed_read
  framed_takes i none a n s' e =
      elim (Out-cases (m (record { input = i; ledger = some (enter fresh).0 }))) [
        | inl (b, k, t, r) ↦ ground (arith, r, h.at _ b k t r)
        | inr (x, k, t, r) ↦ ground (arith, r)
      ]
  framed_takes i (some b) a n s' e =
      elim (Out-cases (m (record { input = i; ledger = some (enter b).0 }))) [
        | inl (c, k, t, r) ↦ ground (arith, r, h.at _ c k t r)
        | inr (x, k, t, r) ↦ ground (arith, r)
      ]

  pub Takes-framed : Takes (framed_read m)
  Takes-framed = record { at = λ s a n s' e. framed_takes s.input s.ledger a n s' e }

-- ===== src/Wire/Out.antt =====
-- The outcome of a call `(n int64, err error)` on a stream, and its sequencing: `n += m`, and the
-- first error ends the call.
use astral_go.Base.{ℕ, ◌+◌, ◌≡◌, refl, ◌⊎◌, inl, inr, arith}

-- The errors that the codecs of astral/ and astral/channel return.
pub data Error : Type 0 where
  eof unexpected_eof : Error
  depth_exceeded : Error
  too_large : Error
  empty_type invalid_type : Error
  invalid_magic : Error
  invalid_flag : Error
  invalid_key : Error
  blueprint_not_found stream_corrupted : Error
  nil_value : Error
  type_mismatch : Error
  duplicate_object unresolved_object : Error

pub data Out (S A : Type 0) : Type 0 where
  ok : A → ℕ → S → Out S A
  fail : Error → ℕ → S → Out S A

-- A call that follows one which moved `n` bytes.
abbrev pub plus : {S A : Type 0} → ℕ → Out S A → Out S A
plus n (ok a m s) = ok a (n + m) s
plus n (fail e m s) = fail e (n + m) s

abbrev pub Step : Type 0 → Type 0 → Type 0
Step S A = S → Out S A

abbrev pub then_with : {S A B : Type 0} → Out S A → (A → Step S B) → Out S B
then_with (ok a n s) f = plus n (f a s)
then_with (fail e n s) f = fail e n s

infixl 5 ◌>>=◌ ◌>>◌
abbrev pub ◌>>=◌ : {S A B : Type 0} → Step S A → (A → Step S B) → Step S B
◌>>=◌ m f s = then_with (m s) f

abbrev pub ◌>>◌ : {S A B : Type 0} → Step S A → Step S B → Step S B
m >> k = m >>= λ _. k

abbrev pub pure : {S A : Type 0} → A → Step S A
pure a s = ok a 0 s

abbrev pub raise : {S A : Type 0} → Error → Step S A
raise e s = fail e 0 s

-- `if err != nil { return 0, err }`: the count of a failed call is dropped.
abbrev pub zero_on_fail : {S A : Type 0} → Out S A → Out S A
zero_on_fail (ok a n s) = ok a n s
zero_on_fail (fail e n s) = fail e 0 s

-- `if err == io.EOF { err = io.ErrUnexpectedEOF }`
abbrev pub unexpected : Error → Error
unexpected eof = unexpected_eof
unexpected e = e

abbrev pub no_eof : {S A : Type 0} → Out S A → Out S A
no_eof (ok a n s) = ok a n s
no_eof (fail e n s) = fail (unexpected e) n s

pub plus-plus : {S A : Type 0} (n m : ℕ) (o : Out S A) → plus n (plus m o) ≡ plus (n + m) o
plus-plus n m (ok a k s) = ground arith
plus-plus n m (fail e k s) = ground arith

pub Out-cases :
    {S A : Type 0} (o : Out S A)
    → ((a : A) × (n : ℕ) × (s : S) × (o ≡ ok a n s))
      ⊎ ((e : Error) × (n : ℕ) × (s : S) × (o ≡ fail e n s))
Out-cases (ok a n s) = inl (a, n, s, refl)
Out-cases (fail e n s) = inr (e, n, s, refl)

-- ===== src/Astral/Sized/Chunks.antt =====
-- The rounds of readNBytes (astral/read_bounded.go).
use astral_go.Base.{
  ℕ, zero, suc, ◌+◌, ◌-◌, ◌*◌, ◌/◌, ◌≤◌, min, ◌≡◌, refl, ap, ◌∙◌, List, [], ◌∷◌, ◌++◌, append-nil,
  append_assoc, ◌==◌, false, length, take, drop, length-take, length-drop, take-append-drop, arith,
}
use mathlib.Core.Path.{subst₂}
use astral_go.Wire.Out.{no_eof, ◌>>=◌}
use astral_go.Wire.Stream.{read_full}
use astral_go.Wire.Reads.{Reads, Reads-pure, Reads-bind, Reads-read_full, Reads-no_eof}
use astral_go.Astral.Sized.{read_chunks, read_n_bytes, grow_chunk}

chunk_step :
    (fuel left : ℕ) (buf : List ℕ)
    → (left == 0) ≡ false
    → read_chunks (suc fuel) left buf ≡ (
        (λ s. no_eof (read_full (min left grow_chunk) s)) >>= λ p.
        read_chunks fuel (left - min left grow_chunk) (buf ++ p))
unfolding read_chunks
chunk_step fuel left buf t = rw (t, read_chunks) refl

Reads-read_chunks :
    (fuel : ℕ) (bs buf : List ℕ) (left : ℕ)
    → left ≡ length bs
    → left ≤ fuel * grow_chunk
    → Reads 0 0 (read_chunks fuel left buf) bs (buf ++ bs)
Reads-read_chunks zero [] buf left e h = unfold read_chunks in rw append-nil (Reads-pure 0 buf)
Reads-read_chunks zero (x ∷ bs) buf left e h = absurd (omega arith)
Reads-read_chunks (suc fuel) [] buf left e h =
    rw (e, append-nil) (unfold read_chunks in Reads-pure 0 buf)
Reads-read_chunks (suc fuel) (x ∷ bs) buf left e h =
    let g = min left grow_chunk in
    let p = take g (x ∷ bs) in
    let q = drop g (x ∷ bs) in
    rw (chunk_step fuel left buf (ground arith)) (
      subst₂
        (λ cs out.
          Reads 0 0 ((λ s. no_eof (read_full g s)) >>= λ r. read_chunks fuel (left - g) (buf ++ r))
            cs out)
        (take-append-drop g (x ∷ bs))
        (append_assoc buf p q ∙ ap (λ l. buf ++ l) (take-append-drop g (x ∷ bs)))
        (Reads-bind _ _ (Reads-no_eof (Reads-read_full p g (omega (arith, length-take g (x ∷ bs)))))
          (Reads-read_chunks fuel q (buf ++ p) (left - g) (omega (arith, length-drop g (x ∷ bs)))
            (omega arith))))

-- readNBytes takes exactly the bytes asked for.
pub Reads-read_n_bytes :
    (bs : List ℕ) (want : ℕ) → want ≡ length bs → Reads 0 0 (read_n_bytes want) bs bs
unfolding read_n_bytes
Reads-read_n_bytes [] want e = rw e (Reads-pure 0 [])
Reads-read_n_bytes (x ∷ bs) want e =
    let nonzero : (length (x ∷ bs) == 0) ≡ false = ground arith in
    rw (e, nonzero)
      (Reads-read_chunks (length (x ∷ bs) / grow_chunk + 1) (x ∷ bs) [] (length (x ∷ bs)) refl
        (omega arith))

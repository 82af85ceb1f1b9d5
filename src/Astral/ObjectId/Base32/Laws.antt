-- ===== src/Astral/ObjectId/Base32/Laws.antt =====
-- The zBase32 encoding of astral/object_id.go read back.
use astral_go.Base.{
  ℕ, zero, suc, ◌*◌, ◌<◌, ◌≡◌, refl, ap, ◌∙◌, true, some, List, [], ◌∷◌, map, length, get_or, ◌==◌,
  ==_iff, All, IsBytes, nat_comparable, Bool-cases, inl, inr, arith,
}
use astral_go.Sig.Members.{has, Nodup}
use astral_go.Astral.ObjectId.Base32.{
  zbase32_char_set, char, digit_of, index_in, to_digits, encode, strip_newlines, digits, groups,
  decode,
}

abbrev pub AreDigits : List ℕ → Type 0
AreDigits = All (λ d. d < 32)

has-get_or : (xs : List ℕ) (i : ℕ) → i < length xs → has (get_or xs i 0) xs ≡ true
unfolding has
has-get_or [] i h = absurd (omega arith)
has-get_or (x ∷ xs) zero h = ground arith
has-get_or (x ∷ xs) (suc i) h = ground (arith, has-get_or xs i (omega arith))

index_in-get_or :
    (xs : List ℕ) (i : ℕ) → Nodup xs → i < length xs → index_in (get_or xs i 0) xs ≡ some i
unfolding index_in has
index_in-get_or [] i d h = absurd (omega arith)
index_in-get_or (x ∷ xs) zero d h = ground arith
index_in-get_or (x ∷ xs) (suc i) d h = elim (Bool-cases (get_or xs i 0 == x)) [
  | inl e ↦
      absurd
        (ground (arith, d.0, has-get_or xs i (omega arith), ap (λ y. has y xs) ((==_iff _ x).0 e)))
  | inr e ↦ rw (e, index_in-get_or xs i d.1 (omega arith)) refl
]

Nodup-char_set : Nodup zbase32_char_set
unfolding has
Nodup-char_set = ground arith

digit_of-char : (d : ℕ) → d < 32 → digit_of (char d) ≡ some d
unfolding digit_of char
digit_of-char d h = index_in-get_or zbase32_char_set d Nodup-char_set h

digits-map-char : (ds : List ℕ) → AreDigits ds → digits (map char ds) ≡ some ds
unfolding digits
digits-map-char [] h = refl
digits-map-char (d ∷ ds) h = ground (arith, digit_of-char d h.0, digits-map-char ds h.1)

-- No character of the alphabet is a line break.
char_no_break : (xs : List ℕ) (i : ℕ) → All (λ c. 13 < c) xs → i < length xs → 13 < get_or xs i 0
char_no_break [] i a h = absurd (omega arith)
char_no_break (x ∷ xs) zero a h = a.0
char_no_break (x ∷ xs) (suc i) a h = char_no_break xs i a.1 (omega arith)

char_visible : (d : ℕ) → d < 32 → 13 < char d
unfolding char
char_visible d h = char_no_break zbase32_char_set d (omega arith) h

strip_newlines-map-char : (ds : List ℕ) → AreDigits ds → strip_newlines (map char ds) ≡ map char ds
unfolding strip_newlines
strip_newlines-map-char [] h = refl
strip_newlines-map-char (d ∷ ds) h =
    ground (arith, char_visible d h.0, strip_newlines-map-char ds h.1)

to_digits-AreDigits : (bs : List ℕ) → IsBytes bs → AreDigits (to_digits bs)
unfolding to_digits
to_digits-AreDigits [] h = tt
to_digits-AreDigits (a ∷ []) h = tt
to_digits-AreDigits (a ∷ b ∷ []) h = tt
to_digits-AreDigits (a ∷ b ∷ c ∷ []) h = tt
to_digits-AreDigits (a ∷ b ∷ c ∷ d ∷ []) h = tt
to_digits-AreDigits (a ∷ b ∷ c ∷ d ∷ e ∷ rest) (ha, (hb, (hc, (hd, (he, h))))) = (
  omega arith,
  (
    omega arith,
    (
      omega arith,
      (
        omega arith,
        (omega arith, (omega arith, (omega arith, (omega arith, to_digits-AreDigits rest h)))),
      ),
    ),
  ),
)

cons_eq : {x y : ℕ} {xs ys : List ℕ} → x ≡ y → xs ≡ ys → x ∷ xs ≡ y ∷ ys
cons_eq h k = cc

groups-to_digits :
    (k : ℕ) (bs : List ℕ) → IsBytes bs → length bs ≡ 5 * k → groups (to_digits bs) ≡ some bs
unfolding groups to_digits
groups-to_digits k [] h l = refl
groups-to_digits k (a ∷ []) h l = absurd (omega arith)
groups-to_digits k (a ∷ b ∷ []) h l = absurd (omega arith)
groups-to_digits k (a ∷ b ∷ c ∷ []) h l = absurd (omega arith)
groups-to_digits k (a ∷ b ∷ c ∷ d ∷ []) h l = absurd (omega arith)
groups-to_digits zero (a ∷ b ∷ c ∷ d ∷ e ∷ rest) h l = absurd (omega arith)
groups-to_digits (suc k) (a ∷ b ∷ c ∷ d ∷ e ∷ rest) (ha, (hb, (hc, (hd, (he, h))))) l =
    rw (groups-to_digits k rest h (omega arith)) (
      ap some (
        cons_eq (omega arith) (
          cons_eq (omega arith)
            (cons_eq (omega arith) (cons_eq (omega arith) (cons_eq (omega arith) refl))))))

decode-groups : (s ds : List ℕ) → digits (strip_newlines s) ≡ some ds → decode s ≡ groups ds
unfolding decode
decode-groups s ds h = ground (arith, h)

-- Decoding what was encoded, for a multiple of five bytes.
pub decode-encode_bytes :
    (k : ℕ) (bs : List ℕ) → IsBytes bs → length bs ≡ 5 * k → decode (encode bs) ≡ some bs
unfolding encode
decode-encode_bytes k bs h l =
    let are = to_digits-AreDigits bs h in
    decode-groups (encode bs) (to_digits bs)
      (ap digits (strip_newlines-map-char (to_digits bs) are) ∙ digits-map-char (to_digits bs) are)
    ∙ groups-to_digits k bs h l

pub length-encode : (k : ℕ) (bs : List ℕ) → length bs ≡ 5 * k → length (encode bs) ≡ 8 * k
unfolding encode to_digits
length-encode zero [] l = refl
length-encode (suc k) [] l = absurd (omega arith)
length-encode k (a ∷ []) l = absurd (omega arith)
length-encode k (a ∷ b ∷ []) l = absurd (omega arith)
length-encode k (a ∷ b ∷ c ∷ []) l = absurd (omega arith)
length-encode k (a ∷ b ∷ c ∷ d ∷ []) l = absurd (omega arith)
length-encode zero (a ∷ b ∷ c ∷ d ∷ e ∷ rest) l = absurd (omega arith)
length-encode (suc k) (a ∷ b ∷ c ∷ d ∷ e ∷ rest) l =
    omega (arith, length-encode k rest (omega arith))
